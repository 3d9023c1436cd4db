-- ===== src/Storage/Format/PageChecks.antt =====
-- The two checksum functions of a page header (`compute_crc`, `verify_crc` of format.rs) side by side.
use embeddb.Base.{ℕ, ◌≤◌, ◌≡◌, some, List, ◌++◌, arith, length, drop, replicate, ◌==◌}
use embeddb.Storage.Format.{PageHeader, compute_crc, verify_crc, serialize_to}
use embeddb.Storage.Format.Laws.{header_bytes, serialize_to-header_bytes}
use embeddb.Base.Bytes.{write_at}

serialize-zeros : (h : PageHeader) → serialize_to h (replicate 16 0) ≡ some (header_bytes h)
unfolding write_at
serialize-zeros h = serialize_to-header_bytes h (replicate 16 0) (omega arith)

-- What `verify_crc` answers on a page of at least sixteen bytes whose header `compute_crc` has just
-- filled in: true exactly when the checksum of the header bytes followed by the data equals the
-- checksum of the data alone. `compute_crc` hashes the data only.
pub verify-compute_crc :
    (crc : List ℕ → ℕ) (h : PageHeader) (page : List ℕ) {h' : PageHeader}
    → 16 ≤ length page
    → compute_crc crc h page ≡ some h'
    → verify_crc crc h' page
      ≡ some (crc (header_bytes (record h { crc32 = 0 }) ++ drop 16 page) == crc (drop 16 page))
unfolding compute_crc verify_crc
verify-compute_crc crc h page {h'} k e = ground (arith, serialize-zeros (record h { crc32 = 0 }))
