-- ===== src/Storage/Wal/Tests.antt =====
-- The theorems on the log at concrete inputs, with a checksum that adds up the bytes.
use embeddb.Base.{ℕ, ◌+◌, ◌%◌, ◌^◌, ◌≡◌, ◌≢◌, refl, none, some, List, [], ◌∷◌, arith}
use embeddb.Base.Outcome.{ok}
use embeddb.Storage.Wal.{
  WalFrame, WalManager, new, frame_hash, read_all_frames, wal_header, append_frame, open_wal,
  recover, checkpoint, apply_frames, write_handle, write_stored,
}
use embeddb.Storage.Wal.Frames.{IsHash, FrameFits}
use embeddb.Storage.Wal.Reading.{
  log_file, SaltsFit, read_all_frames-total, read_all_frames-log_file,
}
use embeddb.Storage.Wal.Recovery.{LogOf, with_salts, recover-log, recover-crash, recover-recover}
use embeddb.Storage.Wal.Appends.{OpenLog, append_frame-recover, checkpoint-log}
use embeddb.Storage.Wal.Salts.{append_frame-lost}

total_of : ℕ → List ℕ → ℕ
total_of acc [] = acc
total_of acc (b ∷ bs) = total_of (acc + b) bs

-- A checksum for the tests.
abbrev sum_crc : List ℕ → ℕ
sum_crc bytes = (total_of 7 bytes) % 2 ^ 32

sum_crc-IsHash : IsHash sum_crc
sum_crc-IsHash = record { bound = λ bytes. omega arith }

abbrev frame1 : WalFrame
frame1 = record { page_number = 1; db_size_after = 8; page_data = 11 ∷ 12 ∷ 13 ∷ 14 ∷ [] }

abbrev frame2 : WalFrame
frame2 = record { page_number = 0; db_size_after = 8; page_data = 21 ∷ 22 ∷ 23 ∷ 24 ∷ [] }

frame1-FrameFits : FrameFits 4 frame1
frame1-FrameFits = record {
  page_number = omega arith;
  db_size_after = omega arith;
  page_data = refl;
}

frame2-FrameFits : FrameFits 4 frame2
frame2-FrameFits = record {
  page_number = omega arith;
  db_size_after = omega arith;
  page_data = refl;
}

abbrev writer : WalManager
writer = new 4 5 6 none

abbrev frames : List WalFrame
frames = frame1 ∷ frame2 ∷ []

abbrev torn_tail : List ℕ
torn_tail = 1 ∷ 0 ∷ 0 ∷ []

abbrev small_db : List ℕ
small_db = 1 ∷ 2 ∷ 3 ∷ 4 ∷ []

-- The next process, with other salts.
abbrev reader : WalManager
reader = new 4 7 8 (some (log_file sum_crc writer frames torn_tail))

writer-SaltsFit : SaltsFit writer
unfolding new
writer-SaltsFit = record { salt1 = omega arith; salt2 = omega arith }

reader-LogOf : LogOf sum_crc writer frames torn_tail reader
unfolding new
reader-LogOf = record {
  stored = refl;
  page_size = refl;
  salts = writer-SaltsFit;
  salted = ground arith;
  frames = (frame1-FrameFits, (frame2-FrameFits, tt));
  torn = omega arith;
}

read_all_frames-log_file_example :
    read_all_frames sum_crc writer (log_file sum_crc writer frames torn_tail) ≡ some frames
unfolding new
read_all_frames-log_file_example =
    read_all_frames-log_file sum_crc writer frames torn_tail sum_crc-IsHash writer-SaltsFit
      (frame1-FrameFits, (frame2-FrameFits, tt)) (omega arith)

recover-log_example : recover sum_crc reader (some small_db) ≡ (
  ok 2,
  write_stored (with_salts reader writer) (wal_header sum_crc (with_salts reader writer)),
  some (apply_frames 4 frames small_db),
)
unfolding new
recover-log_example =
    recover-log sum_crc writer reader frame1 (frame2 ∷ []) torn_tail small_db sum_crc-IsHash
      reader-LogOf

recover-crash_example :
    recover sum_crc reader (some (apply_frames 4 (frame1 ∷ []) small_db))
    ≡ recover sum_crc reader (some small_db)
unfolding new
recover-crash_example =
    recover-crash sum_crc writer reader frame1 [] (frame2 ∷ []) torn_tail small_db sum_crc-IsHash
      reader-LogOf (frame1-FrameFits, tt)

recover-recover_example :
    recover sum_crc
      (recover sum_crc reader (some small_db)).1
      (recover sum_crc reader (some small_db)).2
    ≡ (ok 0, (recover sum_crc reader (some small_db)).1, (recover sum_crc reader (some small_db)).2)
recover-recover_example =
    recover-recover sum_crc writer reader frame1 (frame2 ∷ []) torn_tail small_db sum_crc-IsHash
      reader-LogOf

-- The writer with its log open.
abbrev opened : WalManager
opened = record writer {
  handle = some (log_file sum_crc writer (frame1 ∷ []) []);
  stored = some (log_file sum_crc writer (frame1 ∷ []) []);
}

opened-OpenLog : OpenLog sum_crc writer (frame1 ∷ []) opened
unfolding new
opened-OpenLog = record {
  handle = refl;
  stored = refl;
  page_size = refl;
  salt1 = refl;
  salt2 = refl;
  salts = writer-SaltsFit;
  frames = (frame1-FrameFits, tt);
}

opened-salted : ¬ ((opened.salt1 ≡ 0) × (opened.salt2 ≡ 0))
unfolding new
opened-salted (z, s) = absurd (omega arith)

abbrev next : WalManager
next = new 4 7 8 (append_frame sum_crc opened frame2).1.stored

append_frame-recover_example :
    (recover sum_crc next (some small_db)).2 ≡ some (apply_frames 4 frames small_db)
unfolding new
append_frame-recover_example =
    append_frame-recover sum_crc writer opened next (frame1 ∷ []) frame2 small_db sum_crc-IsHash
      opened-OpenLog opened-salted frame2-FrameFits refl refl

checkpoint-log_example : checkpoint sum_crc opened (some small_db) ≡ (
  ok tt,
  record (write_handle opened (wal_header sum_crc opened)) { sequence = 0; frame_count = 0 },
  some (apply_frames 4 (frame1 ∷ []) small_db),
)
unfolding new
checkpoint-log_example =
    checkpoint-log sum_crc writer opened frame1 [] small_db sum_crc-IsHash opened-OpenLog

-- A process that finds only the header.
abbrev restarted : WalManager
restarted = new 4 7 8 (some (wal_header sum_crc writer))

restarted-SaltsFit : SaltsFit restarted
unfolding new
restarted-SaltsFit = record { salt1 = omega arith; salt2 = omega arith }

abbrev third : WalManager
third =
    new 4 1 2
      (append_frame sum_crc (open_wal sum_crc (recover sum_crc restarted (some small_db)).1).1
        frame1).1.stored

hashes_differ :
    frame_hash sum_crc 1 (11 ∷ 12 ∷ 13 ∷ 14 ∷ []) 5
    ≢ frame_hash sum_crc 1 (11 ∷ 12 ∷ 13 ∷ 14 ∷ []) 7
unfolding frame_hash total_of
hashes_differ = ground arith

append_frame-lost_example :
    recover sum_crc third (some small_db) ≡ (ok 0, with_salts third writer, some small_db)
unfolding new
append_frame-lost_example =
    append_frame-lost sum_crc sum_crc-IsHash writer restarted third frame1 writer-SaltsFit
      restarted-SaltsFit (some small_db) (ground arith) refl frame1-FrameFits hashes_differ refl

read_all_frames-total_example :
    (fs : List WalFrame) × (read_all_frames sum_crc reader
        (log_file sum_crc writer frames torn_tail)
      ≡ some fs)
read_all_frames-total_example =
    read_all_frames-total sum_crc reader (log_file sum_crc writer frames torn_tail)
