-- ===== src/Tests.antt =====
-- Runs of the code on concrete inputs, and the theorems applied to them.
mod Rings
mod Utils
mod Urls
mod Chunks
mod Conns
mod Answers
pub mod Amf
mod Streams
