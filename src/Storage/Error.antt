-- ===== src/Storage/Error.antt =====
-- crates/vexra-storage/src/error.rs: the kinds of storage error. Message texts are left out.
use embeddb.Base.{ℕ}

pub data StorageError : Type 0 where
  io invalid_file wal_corrupted read_only write_conflict serialization other : StorageError
  page_not_found crc_mismatch unsupported_version : ℕ → StorageError
  page_full : ℕ → ℕ → ℕ → StorageError
