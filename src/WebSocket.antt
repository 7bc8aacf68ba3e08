-- ===== src/WebSocket.antt =====
-- web_socket_server/server_ws.hpp: the frames that the server sends and reads, the queue of what a
-- connection sends, and the life of a connection.
pub mod Bits
pub mod Frame
pub mod Queue
pub mod Connection
pub mod Peer
pub mod Handshake
