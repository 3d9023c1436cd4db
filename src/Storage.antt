-- ===== src/Storage.antt =====
-- The storage crate (crates/vexra-storage/src): encoding helpers, page format, page cache and
-- write-ahead log, and the error type of error.rs without its message texts.
pub mod Encoding
pub mod Format
pub mod Error
pub mod Cache
pub mod Wal
mod Tests
