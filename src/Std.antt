-- ===== src/Std.antt =====
-- What the servers use of the C++ standard library: searches in strings, lines of a stream, numbers
-- in texts.
pub mod Find
pub mod Stream
