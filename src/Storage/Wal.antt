-- ===== src/Storage/Wal.antt =====
-- crates/vexra-storage/src/wal.rs: the write-ahead log. A manager holds the bytes of its open file,
-- and `stored` is what the next process finds under the log's path; a write through the handle
-- shows there as long as the file has not been removed. The checksum of the crc32fast crate is the
-- argument `crc`; feeding a hasher piece by piece hashes the joined bytes. Random salts are arguments
-- of `new`. I/O errors other than a missing or short file are left out.
pub mod Frames
pub mod Reading
pub mod Replay
pub mod Recovery
pub mod Appends
pub mod Salts
mod Tests
use embeddb.Base.{
  ℕ, zero, suc, ◌+◌, ◌*◌, ◌%◌, ◌^◌, Bool, true, false, not, ◌&&◌, ◌||◌, Option, none, some, List,
  [], ◌∷◌, ◌++◌, ltb, leb, ◌==◌, if◌then◌else◌, length, take,
}
use embeddb.Base.Bytes.{slice, write_at, to_le, from_le}
use embeddb.Base.Outcome.{Outcome, ok, err}
use embeddb.Storage.Error.{StorageError, io, other, wal_corrupted}

abbrev pub wal_magic : ℕ
wal_magic = 0x377F_0683

abbrev pub wal_version : ℕ
wal_version = 1

abbrev pub wal_header_size : ℕ
wal_header_size = 32

abbrev pub wal_frame_header_size : ℕ
wal_frame_header_size = 28

pub record WalFrame : Type 0 where
  pub page_number : ℕ
  pub db_size_after : ℕ
  pub page_data : List ℕ

pub record WalManager : Type 0 where
  pub page_size : ℕ
  pub sequence : ℕ
  pub salt1 : ℕ
  pub salt2 : ℕ
  pub frame_count : ℕ
  pub checkpoint_threshold : ℕ
  pub handle : Option (List ℕ)
  pub stored : Option (List ℕ)

-- `new`, beside the log that is under the path.
unfoldable pub new : ℕ → ℕ → ℕ → Option (List ℕ) → WalManager
new page_size salt1 salt2 stored = record {
  page_size = page_size;
  sequence = 0;
  salt1 = salt1;
  salt2 = salt2;
  frame_count = 0;
  checkpoint_threshold = 1000;
  handle = none;
  stored = stored;
}

-- The file under the path, if it is still there, gets the bytes.
abbrev pub replace : Option (List ℕ) → List ℕ → Option (List ℕ)
replace none bytes = none
replace (some old) bytes = some bytes

abbrev pub write_handle : WalManager → List ℕ → WalManager
write_handle w bytes = record w { handle = some bytes; stored = replace w.stored bytes }

-- A write through the path shows in an open handle.
abbrev pub write_stored : WalManager → List ℕ → WalManager
write_stored w bytes = record w { handle = replace w.handle bytes; stored = some bytes }

abbrev pub exists : Option (List ℕ) → Bool
exists none = false
exists (some bytes) = true

abbrev pub contents : Option (List ℕ) → List ℕ
contents none = []
contents (some bytes) = bytes

-- The two hashes of `compute_frame_checksum`; its `frame_seq` is 0 at every call.
unfoldable pub frame_hash : (List ℕ → ℕ) → ℕ → List ℕ → ℕ → ℕ
frame_hash crc page_number page_data salt =
    crc (to_le 4 page_number ++ (to_le 4 salt ++ (to_le 4 0 ++ page_data)))

-- The bytes of `write_wal_header`.
unfoldable pub wal_header : (List ℕ → ℕ) → WalManager → List ℕ
wal_header crc w =
    let front =
      to_le 4 wal_magic
      ++ to_le 4 wal_version
      ++ to_le 4 w.page_size
      ++ to_le 4 (w.sequence % 2 ^ 32)
      ++ to_le 4 w.salt1
      ++ to_le 4 w.salt2 in
    front ++ to_le 8 (crc front)

unfoldable pub write_wal_header : (List ℕ → ℕ) → WalManager → List ℕ → List ℕ
write_wal_header crc w file = write_at 0 (wal_header crc w) file

unfoldable pub read_wal_header : List ℕ → Outcome StorageError (ℕ × ℕ)
read_wal_header file =
    if ltb (length file) wal_header_size
    then err io
    else if not (from_le (slice 0 4 file) == wal_magic)
    then err wal_corrupted
    else if not (from_le (slice 4 4 file) == wal_version)
    then err wal_corrupted
    else ok (from_le (slice 16 4 file), from_le (slice 20 4 file))

abbrev pub set_file : WalManager → List ℕ → WalManager
set_file w bytes = record w { handle = some bytes; stored = some bytes }

abbrev pub open_valid :
    WalManager
    → List ℕ
    → Outcome StorageError (ℕ × ℕ)
    → Outcome StorageError (Unit {0}) × WalManager
open_valid w file (ok salts) = (ok tt, set_file w file)
open_valid w file (err e) = (err e, w)
open_valid w file Outcome.panic = (Outcome.panic, w)

-- `open`: the salts of a log that is there are not taken over.
unfoldable pub open_wal : (List ℕ → ℕ) → WalManager → Outcome StorageError (Unit {0}) × WalManager
open_wal crc w =
    if not (exists w.stored) || (length (contents w.stored) == 0)
    then (ok tt, set_file w (write_wal_header crc w (contents w.stored)))
    else open_valid w (contents w.stored) (read_wal_header (contents w.stored))

-- A frame as `append_frame` writes it.
unfoldable pub frame_bytes : (List ℕ → ℕ) → ℕ → ℕ → WalFrame → List ℕ
frame_bytes crc salt1 salt2 f =
    to_le 4 f.page_number
    ++ (to_le 8 f.db_size_after
        ++ (to_le 4 salt1
            ++ (to_le 4 salt2
                ++ (to_le 4 (frame_hash crc f.page_number f.page_data salt1)
                    ++ (to_le 4 (frame_hash crc f.page_number f.page_data salt2) ++ f.page_data)))))

abbrev pub append_to :
    (List ℕ → ℕ) → WalManager → WalFrame → Option (List ℕ) → Outcome StorageError ℕ × WalManager
append_to crc w f none = (err other, w)
append_to crc w f (some file) = (
  ok (w.sequence + 1),
  record (write_handle w (file ++ frame_bytes crc w.salt1 w.salt2 f)) {
    sequence = w.sequence + 1;
    frame_count = w.frame_count + 1;
  },
)

unfoldable pub append_frame :
    (List ℕ → ℕ) → WalManager → WalFrame → Outcome StorageError ℕ × WalManager
append_frame crc w f = append_to crc w f w.handle

abbrev pub push_frame : WalFrame → Option (List WalFrame) → Option (List WalFrame)
push_frame f none = none
push_frame f (some fs) = some (f ∷ fs)

-- The loop of `read_all_frames`; `none` is the end of the fuel.
unfoldable pub read_frames_from : (List ℕ → ℕ) → ℕ → ℕ → ℕ → List ℕ → ℕ → ℕ → Option (List WalFrame)
read_frames_from crc page_size salt1 salt2 file zero offset = none
read_frames_from crc page_size salt1 salt2 file (suc fuel) offset =
    let page_offset = offset + wal_frame_header_size in
    let page_number = from_le (slice offset 4 file) in
    let page_data = slice page_offset page_size file in
    let frame : WalFrame = record {
      page_number = page_number;
      db_size_after = from_le (slice (offset + 4) 8 file);
      page_data = page_data;
    } in
    let rest = read_frames_from crc page_size salt1 salt2 file fuel (page_offset + page_size) in
    if ltb (length file) (offset + wal_frame_header_size)
    then some []
    else if ltb (length file) (page_offset + page_size)
    then some []
    else if not (frame_hash crc page_number page_data salt1 == from_le (slice (offset + 20) 4 file))
        || not (frame_hash crc page_number page_data salt2 == from_le (slice (offset + 24) 4 file))
    then some []
    else push_frame frame rest

unfoldable pub read_all_frames : (List ℕ → ℕ) → WalManager → List ℕ → Option (List WalFrame)
read_all_frames crc w file =
    read_frames_from crc w.page_size w.salt1 w.salt2 file (length file + 1) wal_header_size

-- The frames' pages written to the database file in order.
unfoldable pub apply_frames : ℕ → List WalFrame → List ℕ → List ℕ
apply_frames page_size [] db = db
apply_frames page_size (f ∷ fs) db =
    apply_frames page_size fs (write_at (f.page_number * page_size) f.page_data db)

abbrev pub frames_of : Option (List WalFrame) → List WalFrame
frames_of none = []
frames_of (some fs) = fs

-- An operation on the log and the database file.
abbrev pub Effect : Type 0 → Type 0
Effect A = Outcome StorageError A × WalManager × Option (List ℕ)

abbrev pub count_frames : List WalFrame → ℕ
count_frames = length

-- The end of `checkpoint`, on the frames read: the log is emptied and gets a new header.
abbrev pub checkpoint_frames :
    (List ℕ → ℕ) → WalManager → Option (List ℕ) → List WalFrame → Effect (Unit {0})
checkpoint_frames crc w db [] = (ok tt, w, db)
checkpoint_frames crc w none (f ∷ fs) = (err io, w, none)
checkpoint_frames crc w (some db) (f ∷ fs) = (
  ok tt,
  record (write_handle w (write_wal_header crc w [])) { sequence = 0; frame_count = 0 },
  some (apply_frames w.page_size (f ∷ fs) db),
)

abbrev pub checkpoint_handle :
    (List ℕ → ℕ) → WalManager → Option (List ℕ) → Option (List ℕ) → Effect (Unit {0})
checkpoint_handle crc w db none = (err other, w, db)
checkpoint_handle crc w db (some file) =
    checkpoint_frames crc w db (frames_of (read_all_frames crc w file))

unfoldable pub checkpoint : (List ℕ → ℕ) → WalManager → Option (List ℕ) → Effect (Unit {0})
checkpoint crc w db = checkpoint_handle crc w db w.handle

-- The end of `recover`, on the frames read. Without a frame the log stays as it is.
abbrev pub recover_frames : (List ℕ → ℕ) → WalManager → Option (List ℕ) → List WalFrame → Effect ℕ
recover_frames crc w db [] = (ok 0, w, db)
recover_frames crc w none (f ∷ fs) = (err io, w, none)
recover_frames crc w (some db) (f ∷ fs) = (
  ok (count_frames (f ∷ fs)),
  write_stored w (write_wal_header crc w []),
  some (apply_frames w.page_size (f ∷ fs) db),
)

-- With the salts of the log's header. A log with a bad header is removed.
abbrev pub recover_salts :
    (List ℕ → ℕ) → WalManager → Option (List ℕ) → List ℕ → Outcome StorageError (ℕ × ℕ) → Effect ℕ
recover_salts crc w db file (ok (s1, s2)) =
    let salted = record w { salt1 = s1; salt2 = s2 } in
    if s1 == 0 && s2 == 0
    then (ok 0, w, db)
    else recover_frames crc salted db (frames_of (read_all_frames crc salted file))
recover_salts crc w db file _ = (ok 0, record w { stored = none }, db)

unfoldable pub recover : (List ℕ → ℕ) → WalManager → Option (List ℕ) → Effect ℕ
recover crc w db =
    if not (exists w.stored)
    then (ok 0, w, db)
    else if leb (length (contents w.stored)) wal_header_size
    then (ok 0, w, db)
    else recover_salts crc w db (contents w.stored) (read_wal_header (contents w.stored))

unfoldable pub needs_checkpoint : WalManager → Bool
needs_checkpoint w = leb w.checkpoint_threshold w.frame_count

unfoldable pub remove_wal : WalManager → WalManager
remove_wal w = record w { stored = none }
