-- ===== src/HttpServer.antt =====
-- web_server/server_http.hpp: requests, resources and the life of a connection.
pub mod Header
pub mod Keys
pub mod Request
pub mod Resources
pub mod Number
pub mod Connection
pub mod Serving
