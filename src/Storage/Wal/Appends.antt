-- ===== src/Storage/Wal/Appends.antt =====
-- `append_frame` and `checkpoint` of wal.rs on a log that the manager has open.
use embeddb.Base.{
  ℕ, ◌≡◌, refl, ap, sym, ◌∙◌, Option, some, List, [], ◌∷◌, ◌++◌, arith, append_assoc, append-nil,
}
use embeddb.Base.Outcome.{ok}
use embeddb.Storage.Wal.{
  WalFrame, WalManager, frame_bytes, read_all_frames, wal_header, append_frame, append_to,
  write_handle, replace, recover, frames_of, checkpoint, checkpoint_handle, checkpoint_frames,
  apply_frames,
}
use embeddb.Storage.Wal.Frames.{IsHash, FrameFits, AllFit, log_bytes, log_bytes-append}
use embeddb.Storage.Wal.Reading.{log_file, SaltsFit, read_all_frames-log_file}
use embeddb.Storage.Wal.Recovery.{LogOf, recover-log, fresh_header}
use embeddb.Storage.Wal.Replay.{AllFit-append}

-- The manager has a log open whose header `v` wrote, with the manager's own salts and page size, and
-- all frames of the log are whole.
pub record OpenLog (crc : List ℕ → ℕ) (v : WalManager) (fs : List WalFrame) (w : WalManager)
    : Type 0 where
  pub handle : w.handle ≡ some (log_file crc v fs [])
  pub stored : w.stored ≡ some (log_file crc v fs [])
  pub page_size : v.page_size ≡ w.page_size
  pub salt1 : v.salt1 ≡ w.salt1
  pub salt2 : v.salt2 ≡ w.salt2
  pub salts : SaltsFit v
  pub frames : AllFit v.page_size fs

log_file-append :
    (crc : List ℕ → ℕ) (v : WalManager) (fs : List WalFrame) (f : WalFrame)
    → log_file crc v fs [] ++ frame_bytes crc v.salt1 v.salt2 f ≡ log_file crc v (fs ++ f ∷ []) []
unfolding log_file
log_file-append crc v fs f =
    rw
      (
        append-nil (log_bytes crc v.page_size v.salt1 v.salt2 fs),
        append-nil (log_bytes crc v.page_size v.salt1 v.salt2 (fs ++ f ∷ [])),
        log_bytes-append crc v.page_size v.salt1 v.salt2 fs (f ∷ []),
      )
      (append_assoc (wal_header crc v) (log_bytes crc v.page_size v.salt1 v.salt2 fs)
          (frame_bytes crc v.salt1 v.salt2 f)
        ∙ rw (append-nil (frame_bytes crc v.salt1 v.salt2 f)) refl)

append_frame-file :
    (crc : List ℕ → ℕ) (w : WalManager) (f : WalFrame) (file : List ℕ)
    → w.handle ≡ some file
    → append_frame crc w f ≡ append_to crc w f (some file)
unfolding append_frame
append_frame-file crc w f file opened = ap (append_to crc w f) opened

-- The frame is at the end of the log, also for the next process, and the sequence goes up by one.
pub append_frame-log :
    (crc : List ℕ → ℕ) (v w : WalManager) (fs : List WalFrame) (f : WalFrame)
    → OpenLog crc v fs w
    → FrameFits w.page_size f
    → OpenLog crc v (fs ++ f ∷ []) (append_frame crc w f).1
append_frame-log crc v w fs f log fit =
    rw (append_frame-file crc w f (log_file crc v fs []) log.handle) (record {
      handle = ap some longer;
      stored =
          ap (λ old. replace old (log_file crc v fs [] ++ frame_bytes crc w.salt1 w.salt2 f))
            log.stored
          ∙ ap some longer;
      page_size = log.page_size;
      salt1 = log.salt1;
      salt2 = log.salt2;
      salts = log.salts;
      frames = AllFit-append v.page_size fs (f ∷ []) log.frames (rw log.page_size fit, tt);
    })
  where
    longer :
        log_file crc v fs [] ++ frame_bytes crc w.salt1 w.salt2 f ≡ log_file crc v (fs ++ f ∷ []) []
    longer = rw (sym log.salt1, sym log.salt2) (log_file-append crc v fs f)

log_file-recover :
    (crc : List ℕ → ℕ) (v u : WalManager) (fs : List WalFrame) (g : WalFrame) (db : List ℕ)
    → IsHash crc
    → LogOf crc v (fs ++ g ∷ []) [] u
    → (recover crc u (some db)).2 ≡ some (apply_frames u.page_size (fs ++ g ∷ []) db)
log_file-recover crc v u [] g db hash left =
    ap (λ r. r.2) (recover-log crc v u g [] [] db hash left)
log_file-recover crc v u (f ∷ fs) g db hash left =
    ap (λ r. r.2) (recover-log crc v u f (fs ++ g ∷ []) [] db hash left)

-- A manager has a log open whose header has the manager's own salts and page size, the salts not both
-- 0, and whose frames, if there are any, are whole. After append_frame of a frame of that page size,
-- the next process, of the same page size and with whatever salts, recovers every frame of the log,
-- the new one last, for a checksum of 32 bits.
pub append_frame-recover :
    (crc : List ℕ → ℕ) (v w u : WalManager) (fs : List WalFrame) (g : WalFrame) (db : List ℕ)
    → IsHash crc
    → OpenLog crc v fs w
    → ¬ ((w.salt1 ≡ 0) × (w.salt2 ≡ 0))
    → FrameFits w.page_size g
    → u.page_size ≡ w.page_size
    → u.stored ≡ (append_frame crc w g).1.stored
    → (recover crc u (some db)).2 ≡ some (apply_frames u.page_size (fs ++ g ∷ []) db)
append_frame-recover crc v w u fs g db hash log salted fit same kept =
    log_file-recover crc v u fs g db hash left
  where
    longer : OpenLog crc v (fs ++ g ∷ []) (append_frame crc w g).1
    longer = append_frame-log crc v w fs g log fit

    left : LogOf crc v (fs ++ g ∷ []) [] u
    left = record {
      stored = kept ∙ longer.stored;
      page_size = log.page_size ∙ sym same;
      salts = log.salts;
      salted = λ z. salted (sym log.salt1 ∙ z.0, sym log.salt2 ∙ z.1);
      frames = longer.frames;
      torn = omega arith;
    }

same_reading :
    (crc : List ℕ → ℕ) (v w : WalManager) (file : List ℕ)
    → v.page_size ≡ w.page_size
    → v.salt1 ≡ w.salt1
    → v.salt2 ≡ w.salt2
    → read_all_frames crc w file ≡ read_all_frames crc v file
unfolding read_all_frames
same_reading crc v w file p s1 s2 = rw (p, s1, s2) refl

checkpoint-read :
    (crc : List ℕ → ℕ) (w : WalManager) (db : Option (List ℕ)) (file : List ℕ) (fs : List WalFrame)
    → w.handle ≡ some file
    → read_all_frames crc w file ≡ some fs
    → checkpoint crc w db ≡ checkpoint_frames crc w db fs
unfolding checkpoint
checkpoint-read crc w db file fs opened read =
    ap (checkpoint_handle crc w db) opened ∙ ap (λ o. checkpoint_frames crc w db (frames_of o)) read

-- A manager has a log open whose header has the manager's own salts and page size, with at least one
-- frame and all frames whole. Its checkpoint writes every frame to the database file in order, leaves
-- a log that is only a header and resets the sequence and the frame count, for a checksum of 32 bits.
pub checkpoint-log :
    (crc : List ℕ → ℕ) (v w : WalManager) (f : WalFrame) (fs : List WalFrame) (db : List ℕ)
    → IsHash crc
    → OpenLog crc v (f ∷ fs) w
    → checkpoint crc w (some db) ≡ (
      ok tt,
      record (write_handle w (wal_header crc w)) { sequence = 0; frame_count = 0 },
      some (apply_frames w.page_size (f ∷ fs) db),
    )
checkpoint-log crc v w f fs db hash log =
    checkpoint-read crc w (some db) (log_file crc v (f ∷ fs) []) (f ∷ fs) log.handle (
      same_reading crc v w _ log.page_size log.salt1 log.salt2
      ∙ read_all_frames-log_file crc v (f ∷ fs) [] hash log.salts log.frames (omega arith))
    ∙ rw (fresh_header crc w) refl
