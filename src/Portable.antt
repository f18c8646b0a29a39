-- ===== src/Portable.antt =====
-- core/portable.c: the blocks that a host program and a portable artifact end with, and the host
-- program's own checks.
pub mod Bytes
pub mod Decode
pub mod Reads
pub mod Ranges
pub mod Tests
