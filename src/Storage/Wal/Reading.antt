-- ===== src/Storage/Wal/Reading.antt =====
-- What `read_all_frames` of wal.rs makes of a whole log file.
use embeddb.Base.Outcome.{ok}
use embeddb.Base.{
  le→ltb, ℕ, ◌+◌, ◌*◌, ◌^◌, ◌<◌, ◌≤◌, ◌≡◌, refl, sym, some, List, ◌++◌, length, drop, arith,
  length-append, drop-append_self, length-drop,
}
use embeddb.Base.Bytes.{from_le-to_le}
use embeddb.Storage.Wal.{WalFrame, WalManager, read_all_frames, wal_header, read_wal_header}
use embeddb.Storage.Wal.Frames.{
  IsHash, AllFit, log_bytes, read_frames-parse, parse-log_bytes, parse-total, length-log_bytes,
}

-- The loop of read_all_frames ends on every file.
pub read_all_frames-total :
    (crc : List ℕ → ℕ) (w : WalManager) (file : List ℕ)
    → (fs : List WalFrame) × (read_all_frames crc w file ≡ some fs)
unfolding read_all_frames
read_all_frames-total crc w file =
    rw (read_frames-parse crc w.page_size w.salt1 w.salt2 file (length file + 1) 32) (
      parse-total crc w.page_size w.salt1 w.salt2 (length file + 1) (drop 32 file)
        (omega (arith, length-drop 32 file)))

-- The frames of a log that any bytes head, with the salts of the manager.
pub read_all_frames-log :
    (crc : List ℕ → ℕ) (w : WalManager) (head : List ℕ) (fs : List WalFrame) (tail : List ℕ)
    → IsHash crc
    → w.salt1 < 2 ^ 32
    → w.salt2 < 2 ^ 32
    → length head ≡ 32
    → AllFit w.page_size fs
    → length tail < 28 + w.page_size
    → read_all_frames crc w (head ++ (log_bytes crc w.page_size w.salt1 w.salt2 fs ++ tail))
      ≡ some fs
unfolding read_all_frames
read_all_frames-log crc w head fs tail hash s1 s2 headed fit torn =
    rw (read_frames-parse crc w.page_size w.salt1 w.salt2 file (length file + 1) 32, behind)
      (parse-log_bytes crc w.page_size w.salt1 w.salt2 hash s1 s2 fs (length file + 1) tail fit
        enough torn)
  where
    log : List ℕ
    log = log_bytes crc w.page_size w.salt1 w.salt2 fs

    file : List ℕ
    file = head ++ (log ++ tail)

    behind : drop 32 file ≡ log ++ tail
    behind = rw (sym headed) (drop-append_self head (log ++ tail))

    few : (n : ℕ) → n ≤ n * (28 + w.page_size)
    few n = grind arith

    enough : length fs < length file + 1
    enough = omega (
      arith,
      length-append head (log ++ tail),
      length-append log tail,
      length-log_bytes crc w.page_size w.salt1 w.salt2 hash s1 s2 fs fit,
      few (length fs),
    )

-- What a manager's log holds: its header and the frames.
unfoldable pub log_file : (List ℕ → ℕ) → WalManager → List WalFrame → List ℕ → List ℕ
log_file crc w fs tail = wal_header crc w ++ (log_bytes crc w.page_size w.salt1 w.salt2 fs ++ tail)

-- A manager whose numbers are in range, over a hash.
pub record SaltsFit (w : WalManager) : Type 0 where
  pub salt1 : w.salt1 < 2 ^ 32
  pub salt2 : w.salt2 < 2 ^ 32

pub length-wal_header : (crc : List ℕ → ℕ) (w : WalManager) → length (wal_header crc w) ≡ 32
unfolding wal_header
length-wal_header crc w = refl

pub read-write_header :
    (crc : List ℕ → ℕ) (w : WalManager) (more : List ℕ)
    → SaltsFit w
    → read_wal_header (wal_header crc w ++ more) ≡ ok (w.salt1, w.salt2)
unfolding wal_header read_wal_header
read-write_header crc w more fit =
    rw
      (
        le→ltb (length (wal_header crc w ++ more)) 32 (omega arith),
        from_le-to_le 4 w.salt1 fit.salt1,
        from_le-to_le 4 w.salt2 fit.salt2,
      )
      refl

-- The frames written behind a log's header are read back by read_all_frames with the same salts,
-- and a tail shorter than a frame is ignored.
pub read_all_frames-log_file :
    (crc : List ℕ → ℕ) (w : WalManager) (fs : List WalFrame) (tail : List ℕ)
    → IsHash crc
    → SaltsFit w
    → AllFit w.page_size fs
    → length tail < 28 + w.page_size
    → read_all_frames crc w (log_file crc w fs tail) ≡ some fs
unfolding log_file
read_all_frames-log_file crc w fs tail hash fit fits torn =
    read_all_frames-log crc w (wal_header crc w) fs tail hash fit.salt1 fit.salt2
      (length-wal_header crc w) fits torn
