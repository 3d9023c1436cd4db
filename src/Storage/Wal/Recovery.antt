-- ===== src/Storage/Wal/Recovery.antt =====
-- `append_frame`, `checkpoint` and `recover` of wal.rs together: what a process appended is what a
-- later one writes into the database file, also when a crash cuts the log or the recovery short.
use embeddb.Base.{
  ℕ, suc, ◌+◌, ◌<◌, ◌≡◌, refl, ap, sym, ◌∙◌, false, ◌&&◌, ◌==◌, Option, some, List, [], ◌∷◌, ◌++◌,
  leb, length, arith, length-append, lt→leb,
}
use embeddb.Base.Outcome.{ok}
use embeddb.Base.Bytes.{write_at}
use embeddb.Storage.Wal.{
  WalFrame, WalManager, frame_bytes, read_all_frames, wal_header, read_wal_header, exists, recover,
  recover_frames, apply_frames, write_wal_header, contents, write_stored,
}
use embeddb.Storage.Wal.Frames.{IsHash, AllFit, log_bytes}
use embeddb.Storage.Wal.Reading.{
  log_file, SaltsFit, read-write_header, read_all_frames-log_file, length-wal_header,
}
use embeddb.Storage.Wal.Replay.{apply_frames-prefix}

-- The manager with the salts and the page size of another.
abbrev pub with_salts : WalManager → WalManager → WalManager
with_salts w v = record w { salt1 = v.salt1; salt2 = v.salt2 }

-- A log under the path that a manager `v` of the same page size wrote, cut off at any place.
pub record LogOf (crc : List ℕ → ℕ) (v : WalManager) (fs : List WalFrame) (tail : List ℕ)
    (w : WalManager) : Type 0 where
  pub stored : w.stored ≡ some (log_file crc v fs tail)
  pub page_size : v.page_size ≡ w.page_size
  pub salts : SaltsFit v
  pub salted : ¬ ((v.salt1 ≡ 0) × (v.salt2 ≡ 0))
  pub frames : AllFit v.page_size fs
  pub torn : length tail < 28 + v.page_size

long_log :
    (crc : List ℕ → ℕ) (v : WalManager) (f : WalFrame) (fs : List WalFrame) (tail : List ℕ)
    → leb (length (log_file crc v (f ∷ fs) tail)) 32 ≡ false
unfolding log_file frame_bytes
long_log crc v f fs tail = lt→leb (length (log_file crc v (f ∷ fs) tail)) 32 (
    omega (
      arith,
      length-append (wal_header crc v) (log_bytes crc v.page_size v.salt1 v.salt2 (f ∷ fs) ++ tail),
      length-wal_header crc v,
    ))

header_log :
    (crc : List ℕ → ℕ) (v : WalManager) (fs : List WalFrame) (tail : List ℕ)
    → SaltsFit v
    → read_wal_header (log_file crc v fs tail) ≡ ok (v.salt1, v.salt2)
unfolding log_file
header_log crc v fs tail salts = read-write_header crc v _ salts

same_reading :
    (crc : List ℕ → ℕ) (v w : WalManager) (file : List ℕ)
    → v.page_size ≡ w.page_size
    → read_all_frames crc (with_salts w v) file ≡ read_all_frames crc v file
unfolding read_all_frames
same_reading crc v w file same = rw (same) refl

pub fresh_header :
    (crc : List ℕ → ℕ) (w : WalManager) → write_wal_header crc w [] ≡ wal_header crc w
unfolding write_wal_header write_at wal_header
fresh_header crc w = refl

not_both : (a b : ℕ) → ¬ ((a ≡ 0) × (b ≡ 0)) → (a == 0 && b == 0) ≡ false
not_both a b h = ground (arith, h)

-- On such a log with a frame, `recover` writes all its frames.
recover-frames :
    (crc : List ℕ → ℕ) (v w : WalManager) (f : WalFrame) (fs : List WalFrame) (tail : List ℕ)
    (db : Option (List ℕ))
    → IsHash crc
    → LogOf crc v (f ∷ fs) tail w
    → recover crc w db ≡ recover_frames crc (with_salts w v) db (f ∷ fs)
unfolding recover
recover-frames crc v w f fs tail db hash log =
    rw
      (
        ap exists log.stored,
        ap contents log.stored,
        long_log crc v f fs tail,
        header_log crc v (f ∷ fs) tail log.salts,
        not_both v.salt1 v.salt2 log.salted,
        same_reading crc v w (log_file crc v (f ∷ fs) tail) log.page_size,
        read_all_frames-log_file crc v (f ∷ fs) tail hash log.salts log.frames log.torn,
      )
      refl

-- On a log of at least one whole frame, cut off inside the next, whose header has the process's page
-- size and salts that are not both 0, recover writes every whole frame to the database file in order,
-- answers their number, takes the salts of the log's header and leaves a log that is only a header,
-- for a checksum of 32 bits.
pub recover-log :
    (crc : List ℕ → ℕ) (v w : WalManager) (f : WalFrame) (fs : List WalFrame) (tail db : List ℕ)
    → IsHash crc
    → LogOf crc v (f ∷ fs) tail w
    → recover crc w (some db) ≡ (
      ok (suc (length fs)),
      write_stored (with_salts w v) (wal_header crc (with_salts w v)),
      some (apply_frames w.page_size (f ∷ fs) db),
    )
recover-log crc v w f fs tail db hash log =
    recover-frames crc v w f fs tail (some db) hash log
    ∙ rw (fresh_header crc (with_salts w v)) refl

-- A log that a crash cut off inside a frame starts with the frames f, fs; the database file already
-- has these frames from a recovery that was cut short. Then recover answers and leaves log and file
-- exactly as a recovery of the file without them, for a checksum of 32 bits and salts that are not
-- both 0.
pub recover-crash :
    (crc : List ℕ → ℕ) (v w : WalManager) (f : WalFrame) (fs gs : List WalFrame) (tail db : List ℕ)
    → IsHash crc
    → LogOf crc v (f ∷ fs ++ gs) tail w
    → AllFit w.page_size (f ∷ fs)
    → recover crc w (some (apply_frames w.page_size (f ∷ fs) db)) ≡ recover crc w (some db)
recover-crash crc v w f fs gs tail db hash log fit =
    recover-log crc v w f (fs ++ gs) tail (apply_frames w.page_size (f ∷ fs) db) hash log
    ∙ rw (apply_frames-prefix w.page_size (f ∷ fs) gs db fit) refl
    ∙ sym (recover-log crc v w f (fs ++ gs) tail db hash log)

emptied :
    (crc : List ℕ → ℕ) (w : WalManager) (db : Option (List ℕ))
    → recover crc (write_stored w (wal_header crc w)) db
      ≡ (ok 0, write_stored w (wal_header crc w), db)
unfolding recover wal_header
emptied crc w db = refl

-- After a recovery of a log with a whole frame, under salts that are not both 0, a second recovery
-- answers 0 and changes nothing, for a checksum of 32 bits.
pub recover-recover :
    (crc : List ℕ → ℕ) (v w : WalManager) (f : WalFrame) (fs : List WalFrame) (tail db : List ℕ)
    → IsHash crc
    → LogOf crc v (f ∷ fs) tail w
    → recover crc (recover crc w (some db)).1 (recover crc w (some db)).2
      ≡ (ok 0, (recover crc w (some db)).1, (recover crc w (some db)).2)
recover-recover crc v w f fs tail db hash log =
    rw (recover-log crc v w f fs tail db hash log)
      (emptied crc (with_salts w v) (some (apply_frames w.page_size (f ∷ fs) db)))
