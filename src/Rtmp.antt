-- ===== src/Rtmp.antt =====
-- src/rtmp: the chunk stream protocol.
pub mod Errors
pub mod Message
pub mod Cache
pub mod Session
pub mod Flow
pub mod Conn
pub mod Assembler
pub mod App
pub mod Stream
