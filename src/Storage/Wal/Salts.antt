-- ===== src/Storage/Wal/Salts.antt =====
-- `recover` and `open` of wal.rs on a log that is only a header, as a checkpoint leaves it.
use embeddb.Base.{
  ℕ, suc, leb, false, ◌+◌, ◌≡◌, ◌≢◌, refl, ap, sym, ◌∙◌, true, Option, some, List, [], ◌++◌, length,
  arith, length-append, lt→leb, ==_ne, drop-append_self, append-nil,
}
use embeddb.Base.Outcome.{ok}
use embeddb.Base.Bytes.{slice, from_le}
use embeddb.Storage.Wal.{
  WalFrame, WalManager, frame_hash, frame_bytes, read_all_frames, wal_header, read_wal_header,
  append_frame, open_wal, recover, exists, contents, set_file,
}
use embeddb.Storage.Wal.Frames.{
  IsHash, FrameFits, matches, first_frame, first-frame, hash1-frame, parse, parse-mismatch,
  read_frames-parse,
}
use embeddb.Storage.Wal.Reading.{SaltsFit, read-write_header, length-wal_header}
use embeddb.Storage.Wal.Recovery.{with_salts}

recover-header :
    (crc : List ℕ → ℕ) (v w : WalManager) (db : Option (List ℕ))
    → w.stored ≡ some (wal_header crc v)
    → recover crc w db ≡ (ok 0, w, db)
unfolding recover wal_header
recover-header crc v w db kept = rw (ap exists kept, ap contents kept) refl

open_wal-header :
    (crc : List ℕ → ℕ) (v w : WalManager)
    → SaltsFit v
    → w.stored ≡ some (wal_header crc v)
    → open_wal crc w ≡ (ok tt, set_file w (wal_header crc v))
unfolding open_wal
open_wal-header crc v w fit kept =
    rw
      (
        ap exists kept,
        ap contents kept,
        length-wal_header crc v,
        sym (append-nil (wal_header crc v)),
        read-write_header crc v [] fit,
      )
      refl

mismatch_of :
    (crc : List ℕ → ℕ) (page_size s1 s2 : ℕ) (bytes : List ℕ) (f : WalFrame) (h : ℕ)
    → first_frame crc page_size s1 s2 bytes ≡ f
    → from_le (slice 20 4 bytes) ≡ h
    → frame_hash crc f.page_number f.page_data s1 ≢ h
    → matches crc page_size s1 s2 bytes ≡ true
mismatch_of crc page_size s1 s2 bytes f h whole h1 ne =
    rw
      (
        ap WalFrame.page_number whole,
        ap WalFrame.page_data whole,
        h1,
        ==_ne (frame_hash crc f.page_number f.page_data s1) h ne,
      )
      refl

module _ (crc : List ℕ → ℕ) (hash : IsHash crc) (v w u : WalManager) (f : WalFrame)
    (v_fits : SaltsFit v) (w_fits : SaltsFit w) where
  mixed : List ℕ
  mixed = wal_header crc v ++ (frame_bytes crc w.salt1 w.salt2 f ++ [])

  mismatch :
      FrameFits u.page_size f
      → frame_hash crc f.page_number f.page_data v.salt1
        ≢ frame_hash crc f.page_number f.page_data w.salt1
      → matches crc u.page_size v.salt1 v.salt2 (frame_bytes crc w.salt1 w.salt2 f ++ []) ≡ true
  mismatch fit ne =
      mismatch_of crc u.page_size v.salt1 v.salt2 (frame_bytes crc w.salt1 w.salt2 f ++ []) f
        (frame_hash crc f.page_number f.page_data w.salt1)
        (first-frame crc u.page_size w.salt1 w.salt2 hash w_fits.salt1 w_fits.salt2 f [] fit)
        (hash1-frame crc u.page_size w.salt1 w.salt2 hash w_fits.salt1 w_fits.salt2 f []) ne

  read-mixed :
      FrameFits u.page_size f
      → frame_hash crc f.page_number f.page_data v.salt1
        ≢ frame_hash crc f.page_number f.page_data w.salt1
      → read_all_frames crc (with_salts u v) mixed ≡ some []
  unfolding read_all_frames mixed
  read-mixed fit ne =
      rw
        (
          read_frames-parse crc u.page_size v.salt1 v.salt2 mixed (length mixed + 1) 32,
          sym (length-wal_header crc v),
          drop-append_self (wal_header crc v) (frame_bytes crc w.salt1 w.salt2 f ++ []),
        )
        (ap (λ n. parse crc u.page_size v.salt1 v.salt2 n (frame_bytes crc w.salt1 w.salt2 f ++ []))
            {x = length mixed + 1} {y = suc (length mixed)} (omega arith)
          ∙ parse-mismatch crc u.page_size v.salt1 v.salt2 (length mixed)
              (frame_bytes crc w.salt1 w.salt2 f ++ []) (mismatch fit ne))

  long_mixed : leb (length mixed) 32 ≡ false
  unfolding mixed frame_bytes
  long_mixed = lt→leb (length mixed) 32 (
      omega (
        arith,
        length-append (wal_header crc v) (frame_bytes crc w.salt1 w.salt2 f ++ []),
        length-wal_header crc v,
      ))

  header-mixed : read_wal_header mixed ≡ ok (v.salt1, v.salt2)
  unfolding mixed
  header-mixed = read-write_header crc v _ v_fits

  -- A log that was only a header, with one frame that the process with the salts of `w` appended.
  recover-mixed :
      (db : Option (List ℕ))
      → v.salt1 ≢ 0
      → FrameFits u.page_size f
      → frame_hash crc f.page_number f.page_data v.salt1
        ≢ frame_hash crc f.page_number f.page_data w.salt1
      → u.stored ≡ some mixed
      → recover crc u db ≡ (ok 0, with_salts u v, db)
  unfolding recover
  recover-mixed db salted fit ne kept =
      rw
        (
          ap exists kept,
          ap contents kept,
          long_mixed,
          header-mixed,
          ==_ne v.salt1 0 salted,
          read-mixed fit ne,
        )
        refl

  appended :
      (db : Option (List ℕ))
      → w.stored ≡ some (wal_header crc v)
      → (append_frame crc (open_wal crc (recover crc w db).1).1 f).1.stored ≡ some mixed
  unfolding append_frame mixed
  appended db kept =
      rw
        (
          recover-header crc v w db kept,
          open_wal-header crc v w v_fits kept,
          append-nil (frame_bytes crc w.salt1 w.salt2 f),
        )
        refl

  -- The log is only the header that `v` wrote, its first salt not 0. A process with other salts recovers, opens the log and
  -- appends a frame, and the two salts' hashes of the frame differ. The next process recovers nothing.
  pub append_frame-lost :
      (db : Option (List ℕ))
      → v.salt1 ≢ 0
      → w.stored ≡ some (wal_header crc v)
      → FrameFits u.page_size f
      → frame_hash crc f.page_number f.page_data v.salt1
        ≢ frame_hash crc f.page_number f.page_data w.salt1
      → u.stored ≡ (append_frame crc (open_wal crc (recover crc w db).1).1 f).1.stored
      → recover crc u db ≡ (ok 0, with_salts u v, db)
  append_frame-lost db salted kept fit ne same =
      recover-mixed db salted fit ne (same ∙ appended db kept)
