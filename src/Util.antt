-- ===== src/Util.antt =====
-- src/util: the helpers under the protocol code.
pub mod Ringbuffer
pub mod Memutil
pub mod Algorithm
pub mod Parseurl
