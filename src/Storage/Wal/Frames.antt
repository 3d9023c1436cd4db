-- ===== src/Storage/Wal/Frames.antt =====
-- Reading the log (`read_all_frames` of wal.rs): what was appended comes back, up to the first frame
-- that is cut off or does not match its checksums.
use embeddb.Base.{
  ◌⊎◌, inl, inr, lt→ltb, Bool-cases, ℕ, zero, suc, ◌+◌, ◌*◌, ◌^◌, ◌<◌, ◌≤◌, ◌≡◌, refl, ap, sym, ◌∙◌,
  Bool, true, false, not, ◌||◌, Option, none, some, List, [], ◌∷◌, ◌++◌, ltb, ◌==◌, if◌then◌else◌,
  length, take, drop, arith, length-drop, drop-drop, length-append, take-append, drop-append_self,
  le→ltb, ==_refl, append_assoc,
}
use embeddb.Base.Bytes.{slice, from_le, from_le-to_le}
use embeddb.Storage.Wal.{WalFrame, frame_hash, frame_bytes, push_frame, read_frames_from}

-- A hash whose values are u32s.
pub record IsHash (crc : List ℕ → ℕ) : Type 0 where
  pub bound : (bytes : List ℕ) → crc bytes < 2 ^ 32

-- A frame of the manager's page size, its numbers in range.
pub record FrameFits (page_size : ℕ) (f : WalFrame) : Type 0 where
  pub page_number : f.page_number < 2 ^ 32
  pub db_size_after : f.db_size_after < 2 ^ 64
  pub page_data : length f.page_data ≡ page_size

abbrev pub AllFit : ℕ → List WalFrame → Type 0
AllFit page_size [] = Unit
AllFit page_size (f ∷ fs) = FrameFits page_size f × AllFit page_size fs

module _ (crc : List ℕ → ℕ) (page_size salt1 salt2 : ℕ) where
  -- The frames' bytes one behind the other.
  abbrev pub log_bytes : List WalFrame → List ℕ
  log_bytes [] = []
  log_bytes (f ∷ fs) = frame_bytes crc salt1 salt2 f ++ log_bytes fs

  pub log_bytes-append :
      (fs gs : List WalFrame) → log_bytes (fs ++ gs) ≡ log_bytes fs ++ log_bytes gs
  log_bytes-append [] gs = refl
  log_bytes-append (f ∷ fs) gs =
      ap (λ d. frame_bytes crc salt1 salt2 f ++ d) (log_bytes-append fs gs)
      ∙ sym (append_assoc (frame_bytes crc salt1 salt2 f) (log_bytes fs) (log_bytes gs))

  abbrev pub first_frame : List ℕ → WalFrame
  first_frame bytes = record {
    page_number = from_le (slice 0 4 bytes);
    db_size_after = from_le (slice 4 8 bytes);
    page_data = take page_size (drop 28 bytes);
  }

  abbrev pub matches : List ℕ → Bool
  matches bytes =
      let f = first_frame bytes in
      not (frame_hash crc f.page_number f.page_data salt1 == from_le (slice 20 4 bytes))
      || not (frame_hash crc f.page_number f.page_data salt2 == from_le (slice 24 4 bytes))

  -- The loop on what is left of the file.
  pub parse : ℕ → List ℕ → Option (List WalFrame)
  parse zero bytes = none
  parse (suc fuel) bytes =
      let rest = parse fuel (drop page_size (drop 28 bytes)) in
      if ltb (length bytes) 28
      then some []
      else if ltb (length bytes) (28 + page_size)
      then some []
      else if matches bytes
      then some []
      else push_frame (first_frame bytes) rest

  pub read_frames-parse :
      (file : List ℕ) (fuel offset : ℕ)
      → read_frames_from crc page_size salt1 salt2 file fuel offset ≡ parse fuel (drop offset file)
  unfolding read_frames_from parse
  read_frames-parse file zero offset = refl
  read_frames-parse file (suc fuel) offset =
      rw
        (
          short 28,
          over,
          at 4,
          at 20,
          at 24,
          at 28,
          read_frames-parse file fuel (offset + 28 + page_size),
          sym behind,
        )
        refl
    where
      short : (k : ℕ) → ltb (length file) (offset + 28) ≡ ltb (length (drop offset file)) 28
      short k = ground (arith, length-drop offset file)

      over :
          ltb (length file) (offset + 28 + page_size)
          ≡ ltb (length (drop offset file)) (28 + page_size)
      over = ground (arith, length-drop offset file)

      at : (k : ℕ) → drop (offset + k) file ≡ drop k (drop offset file)
      at k = sym (drop-drop k offset file)

      behind : drop page_size (drop 28 (drop offset file)) ≡ drop (offset + 28 + page_size) file
      behind =
          ap (drop page_size) (drop-drop 28 offset file) ∙ drop-drop page_size (offset + 28) file

  matches_of :
      (bytes : List ℕ) (f : WalFrame)
      → first_frame bytes ≡ f
      → from_le (slice 20 4 bytes) ≡ frame_hash crc f.page_number f.page_data salt1
      → from_le (slice 24 4 bytes) ≡ frame_hash crc f.page_number f.page_data salt2
      → matches bytes ≡ false
  matches_of bytes f whole h1 h2 =
      rw
        (
          ap WalFrame.page_number whole,
          ap WalFrame.page_data whole,
          h1,
          h2,
          ==_refl (frame_hash crc f.page_number f.page_data salt1),
          ==_refl (frame_hash crc f.page_number f.page_data salt2),
        )
        refl

  module _ (hash : IsHash crc) (salt1_fits : salt1 < 2 ^ 32) (salt2_fits : salt2 < 2 ^ 32) where
    hash_bound : (f : WalFrame) (salt : ℕ) → frame_hash crc f.page_number f.page_data salt < 2 ^ 32
    unfolding frame_hash
    hash_bound f salt = hash.bound _

    length-frame_bytes :
        (f : WalFrame)
        → FrameFits page_size f
        → length (frame_bytes crc salt1 salt2 f) ≡ 28 + page_size
    unfolding frame_bytes
    length-frame_bytes f fits = omega (arith, fits.page_data)

    pub first-frame :
        (f : WalFrame) (rest : List ℕ)
        → FrameFits page_size f
        → first_frame (frame_bytes crc salt1 salt2 f ++ rest) ≡ f
    unfolding frame_bytes
    first-frame f rest fits =
        rw
          (
            from_le-to_le 4 f.page_number fits.page_number,
            from_le-to_le 8 f.db_size_after fits.db_size_after,
            whole,
          )
          refl
      where
        whole : take page_size (f.page_data ++ rest) ≡ f.page_data
        whole = rw (sym fits.page_data) (take-append f.page_data rest)

    pub hash1-frame :
        (f : WalFrame) (rest : List ℕ)
        → from_le (slice 20 4 (frame_bytes crc salt1 salt2 f ++ rest))
          ≡ frame_hash crc f.page_number f.page_data salt1
    unfolding frame_bytes
    hash1-frame f rest =
        from_le-to_le 4 (frame_hash crc f.page_number f.page_data salt1) (hash_bound f salt1)

    hash2-frame :
        (f : WalFrame) (rest : List ℕ)
        → from_le (slice 24 4 (frame_bytes crc salt1 salt2 f ++ rest))
          ≡ frame_hash crc f.page_number f.page_data salt2
    unfolding frame_bytes
    hash2-frame f rest =
        from_le-to_le 4 (frame_hash crc f.page_number f.page_data salt2) (hash_bound f salt2)

    matches-frame :
        (f : WalFrame) (rest : List ℕ)
        → FrameFits page_size f
        → matches (frame_bytes crc salt1 salt2 f ++ rest) ≡ false
    matches-frame f rest fits =
        matches_of (frame_bytes crc salt1 salt2 f ++ rest) f (first-frame f rest fits)
          (hash1-frame f rest) (hash2-frame f rest)

    drop-frame :
        (f : WalFrame) (rest : List ℕ)
        → FrameFits page_size f
        → drop page_size (drop 28 (frame_bytes crc salt1 salt2 f ++ rest)) ≡ rest
    unfolding frame_bytes
    drop-frame f rest fits = rw (sym fits.page_data) (drop-append_self f.page_data rest)

    parse-frame :
        (fuel : ℕ) (f : WalFrame) (rest : List ℕ)
        → FrameFits page_size f
        → parse (suc fuel) (frame_bytes crc salt1 salt2 f ++ rest) ≡ push_frame f (parse fuel rest)
    unfolding parse
    parse-frame fuel f rest fits =
        rw
          (
            le→ltb (length (frame_bytes crc salt1 salt2 f ++ rest)) 28 (omega (arith, long)),
            le→ltb (length (frame_bytes crc salt1 salt2 f ++ rest)) (28 + page_size) long,
            matches-frame f rest fits,
            drop-frame f rest fits,
            first-frame f rest fits,
          )
          refl
      where
        long : 28 + page_size ≤ length (frame_bytes crc salt1 salt2 f ++ rest)
        long =
            omega
              (arith, length-append (frame_bytes crc salt1 salt2 f) rest, length-frame_bytes f fits)

    -- A torn tail ends the reading.
    pub parse-log_bytes :
        (fs : List WalFrame) (fuel : ℕ) (tail : List ℕ)
        → AllFit page_size fs
        → length fs < fuel
        → length tail < 28 + page_size
        → parse fuel (log_bytes fs ++ tail) ≡ some fs
    unfolding parse
    parse-log_bytes fs zero tail fit enough torn = absurd (omega arith)
    parse-log_bytes [] (suc fuel) tail fit enough torn = ground (arith, torn)
    parse-log_bytes (f ∷ fs) (suc fuel) tail (fit, more) enough torn =
        ap (parse (suc fuel)) (append_assoc (frame_bytes crc salt1 salt2 f) (log_bytes fs) tail)
        ∙ parse-frame fuel f (log_bytes fs ++ tail) fit
        ∙ ap (push_frame f) (parse-log_bytes fs fuel tail more (omega arith) torn)

    pub length-log_bytes :
        (fs : List WalFrame)
        → AllFit page_size fs
        → length (log_bytes fs) ≡ length fs * (28 + page_size)
    length-log_bytes [] fit = grind arith
    length-log_bytes (f ∷ fs) (fit, more) = omega (
      arith,
      length-append (frame_bytes crc salt1 salt2 f) (log_bytes fs),
      length-frame_bytes f fit,
      length-log_bytes fs more,
      step (length fs),
    )
      where
        step : (n : ℕ) → suc n * (28 + page_size) ≡ (28 + page_size) + n * (28 + page_size)
        step n = grind arith

  parse-total_long :
      (fuel : ℕ) (bytes : List ℕ)
      → 28 ≤ length bytes
      → (fs : List WalFrame) × (parse fuel (drop page_size (drop 28 bytes)) ≡ some fs)
      → (fs : List WalFrame) × (parse (suc fuel) bytes ≡ some fs)
  unfolding parse
  parse-total_long fuel bytes long (rest, e) =
      elim (Bool-cases (ltb (length bytes) (28 + page_size))) [
        | inl short ↦ ([], rw (le→ltb (length bytes) 28 long, short) refl)
        | inr whole ↦ elim (Bool-cases (matches bytes)) [
          | inl bad ↦ ([], rw (le→ltb (length bytes) 28 long, whole, bad) refl)
          | inr good ↦
              (first_frame bytes ∷ rest, rw (le→ltb (length bytes) 28 long, whole, good, e) refl)
        ]
      ]

  pub parse-mismatch :
      (fuel : ℕ) (bytes : List ℕ) → matches bytes ≡ true → parse (suc fuel) bytes ≡ some []
  unfolding parse
  parse-mismatch fuel bytes bad = elim (Bool-cases (ltb (length bytes) 28)) [
    | inl short ↦ rw short refl
    | inr long ↦ elim (Bool-cases (ltb (length bytes) (28 + page_size))) [
      | inl cut ↦ rw (long, cut) refl
      | inr whole ↦ rw (long, whole, bad) refl
    ]
  ]

  -- The loop always has enough fuel.
  pub parse-total :
      (fuel : ℕ) (bytes : List ℕ)
      → length bytes < fuel
      → (fs : List WalFrame) × (parse fuel bytes ≡ some fs)
  unfolding parse
  parse-total zero bytes enough = absurd (omega arith)
  parse-total (suc fuel) bytes enough = elim (short (length bytes)) [
    | inl h ↦ ([], rw (lt→ltb (length bytes) 28 h) refl)
    | inr h ↦ parse-total_long fuel bytes h (
        parse-total fuel (drop page_size (drop 28 bytes))
          (omega (arith, length-drop 28 bytes, length-drop page_size (drop 28 bytes))))
  ]
    where
      short : (n : ℕ) → (n < 28) ⊎ (28 ≤ n)
      short n = ground arith
