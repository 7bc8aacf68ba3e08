-- ===== src/Tests.antt =====
-- Runs of the code on concrete inputs, and the theorems applied to them.
mod Library
mod Samples
mod Irc
mod HttpClient
mod Bot
mod WebSocket
mod HttpServer
mod Handshake
mod Crypto
mod SendQueue
mod Page
mod Serving
