-- ===== src/Irc.antt =====
-- irc/irc_client.hpp and irc/irc_client.cpp.
pub mod Message
pub mod Effects
pub mod Stoi
pub mod Commands
pub mod Dispatch
pub mod Reply
pub mod Reader
pub mod Session
