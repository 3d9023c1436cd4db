-- ===== src/Storage/Cache/Cells.antt =====
-- A slotted page is a list of cells: what `write_cell_bytes` (page_cache.rs) does to it.
use embeddb.Base.{
  ℕ, zero, suc, ◌+◌, ◌*◌, ◌%◌, ◌^◌, ◌≤◌, ◌<◌, ◌≡◌, refl, ap, ap₂, sym, ◌∙◌, none, some, List, [],
  ◌∷◌, ◌++◌, map, map-append, drop-drop, arith, length, take, drop, replicate, length-take,
  length-drop, le→ltb, lt→leb, append-nil,
}
use embeddb.Base.Bytes.{
  slice, write_at, from_le, length-write_at, slice-write_at_self, slice-write_at_before,
  slice-write_at_after,
}
use embeddb.Storage.Format.{
  PageHeader, deserialize_from, read_page_header, read_cell_pointers, read_cell_pointers_raw,
  decode_cell_pointers, encode_cell_pointer, read_cell_data,
}
use embeddb.Storage.Format.Laws.{
  Fits, header_bytes, serialize_to-header_bytes, deserialize-write_at, decode-encode_cons,
}
use embeddb.Storage.Cache.Write.{write_cell_bytes, copy_range-fits, header_after}

take-add : (a b : ℕ) (xs : List ℕ) → take (a + b) xs ≡ take a xs ++ take b (drop a xs)
take-add zero b xs = ap (λ n. take n xs) {x = 0 + b} {y = b} (omega arith)
take-add (suc a) zero [] = ap (λ n. take n []) {x = suc a + 0} {y = suc a} (omega arith)
take-add (suc a) (suc b) [] =
    ap (λ n. take n []) {x = suc a + suc b} {y = suc (a + suc b)} (omega arith)
take-add (suc a) b (x ∷ xs) =
    ap (λ n. take n (x ∷ xs)) {x = suc a + b} {y = suc (a + b)} (omega arith)
    ∙ ap (◌∷◌ x) (take-add a b xs)

-- Chunks of four: an array of `n` pointers followed by more bytes.
decode-append :
    (n : ℕ) (front back : List ℕ)
    → length front ≡ n * 4
    → decode_cell_pointers (front ++ back) ≡ decode_cell_pointers front ++ decode_cell_pointers back
unfolding decode_cell_pointers
decode-append zero [] back h = refl
decode-append zero (a ∷ r) back h = absurd (omega arith)
decode-append (suc n) [] back h = absurd (omega arith)
decode-append (suc n) (a ∷ []) back h = absurd (omega arith)
decode-append (suc n) (a ∷ b ∷ []) back h = absurd (omega arith)
decode-append (suc n) (a ∷ b ∷ c ∷ []) back h = absurd (omega arith)
decode-append (suc n) (a ∷ b ∷ c ∷ d ∷ r) back h =
    ap (◌∷◌ (from_le (a ∷ b ∷ []), from_le (c ∷ d ∷ []))) (decode-append n r back (omega arith))

-- Every pointer names a range of cell data below the free space.
abbrev pub AllBelow : ℕ → List (ℕ × ℕ) → Type 0
AllBelow free [] = Unit
AllBelow free ((start, len) ∷ ps) = ((1040 ≤ start) × (start + len ≤ free)) × AllBelow free ps

-- A well-formed data page of `page_size` bytes under its header.
pub record IsPage (page_size : ℕ) (h : PageHeader) (bytes : List ℕ) : Type 0 where
  pub len : length bytes ≡ page_size
  pub stored : read_page_header bytes ≡ some h
  pub fits : Fits h
  pub free_low : 1040 ≤ h.free_space_offset
  pub free_high : h.free_space_offset ≤ page_size
  pub cells : h.num_cells ≤ 256
  pub pointers : AllBelow h.free_space_offset (read_cell_pointers h bytes)

-- The abstract page: its cells in order.
abbrev pub cells : PageHeader → List ℕ → List (List ℕ)
cells h bytes = map (read_cell_data bytes) (read_cell_pointers h bytes)

-- The three writes of an appended cell.
abbrev pub written : PageHeader → List ℕ → List ℕ → List ℕ
written h bytes cell = write_at 0 (header_bytes (header_after h (length cell) none)) (
    write_at (16 + h.num_cells * 4) (encode_cell_pointer (h.free_space_offset, length cell))
      (write_at h.free_space_offset cell bytes))

length-encode : (p : ℕ × ℕ) → length (encode_cell_pointer p) ≡ 4
unfolding encode_cell_pointer
length-encode (a, b) = refl

fresh_header : (h : PageHeader) → write_at 0 (header_bytes h) (replicate 16 0) ≡ header_bytes h
unfolding write_at
fresh_header h = refl

pub read-header_bytes :
    (h : PageHeader) (buf : List ℕ)
    → Fits h
    → read_page_header (write_at 0 (header_bytes h) buf) ≡ some h
unfolding read_page_header
read-header_bytes h buf f =
    rw
      (le→ltb (length (write_at 0 (header_bytes h) buf)) 16
        (omega (arith, length-write_at 0 (header_bytes h) buf)))
      (ap deserialize_from (slice-write_at_self 0 (header_bytes h) buf ∙ sym (alone h))
        ∙ deserialize-write_at h [] f)
  where
    alone : (h : PageHeader) → write_at 0 (header_bytes h) [] ≡ header_bytes h
    alone h = unfold write_at in refl

decode-nil : decode_cell_pointers [] ≡ []
unfolding decode_cell_pointers
decode-nil = refl

decode_one :
    (a b : ℕ)
    → a < 2 ^ 16
    → b < 2 ^ 16
    → decode_cell_pointers (encode_cell_pointer (a, b)) ≡ (a, b) ∷ []
decode_one a b ha hb =
    ap decode_cell_pointers (sym (append-nil (encode_cell_pointer (a, b))))
    ∙ decode-encode_cons (a, b) [] (ha, hb)
    ∙ ap (◌∷◌ (a, b)) decode-nil

AllBelow-mono : (ps : List (ℕ × ℕ)) (m n : ℕ) → m ≤ n → AllBelow m ps → AllBelow n ps
AllBelow-mono [] m n h a = tt
AllBelow-mono ((s, l) ∷ ps) m n h ((lo, hi), a) = ((lo, omega arith), AllBelow-mono ps m n h a)

AllBelow-append :
    (free : ℕ) (ps : List (ℕ × ℕ)) (p : ℕ × ℕ)
    → AllBelow free ps
    → 1040 ≤ p.0
    → p.0 + p.1 ≤ free
    → AllBelow free (ps ++ (p ∷ []))
AllBelow-append free [] (s, l) a lo hi = ((lo, hi), tt)
AllBelow-append free ((s, l) ∷ ps) p (b, a) lo hi = (b, AllBelow-append free ps p a lo hi)

-- Below 2^16 a length is its cast to u16.
module _ (h : PageHeader) (bytes cell : List ℕ) {page_size : ℕ} (p : IsPage page_size h bytes)
    (small : page_size < 2 ^ 16) (space : h.num_cells < 256)
    (room : h.free_space_offset + length cell ≤ page_size) where
  after_Fits : Fits (header_after h (length cell) none)
  after_Fits =
      let f = p.fits in
      record {
        page_type = f.page_type;
        collection_id = f.collection_id;
        free_space_offset = omega arith;
        num_cells = omega arith;
        crc32 = f.crc32;
        flags = f.flags;
        pad = f.pad;
      }

  abbrev with_cell : List ℕ
  with_cell = write_at h.free_space_offset cell bytes

  abbrev with_pointer : List ℕ
  with_pointer =
      write_at (16 + h.num_cells * 4) (encode_cell_pointer (h.free_space_offset, length cell))
        with_cell

  len_cell : length with_cell ≡ page_size
  len_cell = omega (arith, length-write_at h.free_space_offset cell bytes, p.len)

  len_pointer : length with_pointer ≡ page_size
  len_pointer = omega (
    arith,
    len_cell,
    p.free_low,
    length-write_at (16 + h.num_cells * 4) (encode_cell_pointer (h.free_space_offset, length cell))
        with_cell,
    length-encode (h.free_space_offset, length cell),
  )

  pub length-written : length (written h bytes cell) ≡ page_size
  length-written =
      length-write_at 0 (header_bytes (header_after h (length cell) none)) with_pointer
      ∙ omega (arith, len_pointer, p.free_low)

  pub write_cell_bytes-written : write_cell_bytes h bytes cell none ≡ some (written h bytes cell)
  unfolding write_cell_bytes
  write_cell_bytes-written =
      let e : length cell % 2 ^ 16 ≡ length cell = omega arith in
      rw (
        e,
        lt→leb (2 ^ 16) (h.free_space_offset + length cell) (omega arith),
        copy_range-fits h.free_space_offset (h.free_space_offset + length cell) cell bytes refl
            (omega (arith, p.len)),
        lt→leb (2 ^ 16) (16 + h.num_cells * 4) (omega arith),
        copy_range-fits (16 + h.num_cells * 4) (16 + h.num_cells * 4 + 4)
            (encode_cell_pointer (h.free_space_offset, length cell)) with_cell
            (omega (arith, length-encode (h.free_space_offset, length cell)))
            (omega (arith, len_cell, p.free_low)),
        serialize_to-header_bytes (header_after h (length cell) none) (replicate 16 0)
            (omega arith),
        fresh_header (header_after h (length cell) none),
        copy_range-fits 0 16 (header_bytes (header_after h (length cell) none)) with_pointer refl
            (omega (arith, len_pointer, p.free_low)),
      )

  -- The header that a page keeps is the one just written.
  stored_after : read_page_header (written h bytes cell) ≡ some (header_after h (length cell) none)
  stored_after = read-header_bytes (header_after h (length cell) none) with_pointer after_Fits

  -- The pointer array has one more entry.
  raw_after :
      slice 16 ((h.num_cells + 1) * 4) (written h bytes cell)
      ≡ slice 16 (h.num_cells * 4) bytes ++ encode_cell_pointer (h.free_space_offset, length cell)
  raw_after =
      ap (λ n. slice 16 n (written h bytes cell)) {x = (h.num_cells + 1) * 4}
        {y = h.num_cells * 4 + 4} (omega arith)
      ∙ slice-write_at_after 16 (h.num_cells * 4 + 4) 0
          (header_bytes (header_after h (length cell) none)) with_pointer (omega arith)
      ∙ take-add (h.num_cells * 4) 4 (drop 16 with_pointer)
      ∙ ap₂ ◌++◌ old new
    where
      old : slice 16 (h.num_cells * 4) with_pointer ≡ slice 16 (h.num_cells * 4) bytes
      old =
          slice-write_at_before 16 (h.num_cells * 4) (16 + h.num_cells * 4)
            (encode_cell_pointer (h.free_space_offset, length cell)) with_cell (omega arith)
            (omega (arith, len_cell, p.free_low))
          ∙ slice-write_at_before 16 (h.num_cells * 4) h.free_space_offset cell bytes
              (omega (arith, p.free_low)) (omega (arith, p.len, p.free_low))

      new :
          take 4 (drop (h.num_cells * 4) (drop 16 with_pointer))
          ≡ encode_cell_pointer (h.free_space_offset, length cell)
      new =
          ap (take 4) (drop-drop (h.num_cells * 4) 16 with_pointer)
          ∙ ap (λ n. slice (16 + h.num_cells * 4) n with_pointer)
              (sym (length-encode (h.free_space_offset, length cell)))
          ∙ slice-write_at_self (16 + h.num_cells * 4)
              (encode_cell_pointer (h.free_space_offset, length cell)) with_cell

  pub pointers_after :
      read_cell_pointers (header_after h (length cell) none) (written h bytes cell)
      ≡ read_cell_pointers h bytes ++ ((h.free_space_offset, length cell) ∷ [])
  unfolding read_cell_pointers read_cell_pointers_raw
  pointers_after =
      rw
        (
          le→ltb (length (written h bytes cell)) (16 + (h.num_cells + 1) * 4)
              (omega (arith, length-written, p.free_low)),
          le→ltb (length bytes) (16 + h.num_cells * 4) (omega (arith, p.len, p.free_low)),
          raw_after,
          decode-append h.num_cells (slice 16 (h.num_cells * 4) bytes)
              (encode_cell_pointer (h.free_space_offset, length cell))
              (length-take (h.num_cells * 4) (drop 16 bytes)
                ∙ omega (arith, length-drop 16 bytes, p.len, p.free_low)),
        )
        (ap (λ r. decode_cell_pointers (slice 16 (h.num_cells * 4) bytes) ++ r)
          (decode_one h.free_space_offset (length cell) (omega arith) (omega arith)))

  old_cell :
      (s l : ℕ)
      → 1040 ≤ s
      → s + l ≤ h.free_space_offset
      → read_cell_data (written h bytes cell) (s, l) ≡ read_cell_data bytes (s, l)
  unfolding read_cell_data
  old_cell s l hs hl =
      rw
        (
          le→ltb (length (written h bytes cell)) (s + l)
              (omega (arith, length-written, p.free_high)),
          le→ltb (length bytes) (s + l) (omega (arith, p.len, p.free_high)),
        )
        (slice-write_at_after s l 0 (header_bytes (header_after h (length cell) none)) with_pointer
            (omega arith)
          ∙ slice-write_at_after s l (16 + h.num_cells * 4)
              (encode_cell_pointer (h.free_space_offset, length cell)) with_cell
              (omega (arith, length-encode (h.free_space_offset, length cell)))
          ∙ slice-write_at_before s l h.free_space_offset cell bytes hl
              (omega (arith, p.len, p.free_high)))

  new_cell : read_cell_data (written h bytes cell) (h.free_space_offset, length cell) ≡ cell
  unfolding read_cell_data
  new_cell =
      rw
        (le→ltb (length (written h bytes cell)) (h.free_space_offset + length cell)
          (omega (arith, length-written)))
        (slice-write_at_after h.free_space_offset (length cell) 0
            (header_bytes (header_after h (length cell) none)) with_pointer
            (omega (arith, p.free_low))
          ∙ slice-write_at_after h.free_space_offset (length cell) (16 + h.num_cells * 4)
              (encode_cell_pointer (h.free_space_offset, length cell)) with_cell
              (omega (arith, p.free_low, length-encode (h.free_space_offset, length cell)))
          ∙ slice-write_at_self h.free_space_offset cell bytes)

  old_cells :
      (ps : List (ℕ × ℕ))
      → AllBelow h.free_space_offset ps
      → map (read_cell_data (written h bytes cell)) ps ≡ map (read_cell_data bytes) ps
  old_cells [] a = refl
  old_cells ((s, l) ∷ ps) ((lo, hi), a) = ap₂ ◌∷◌ (old_cell s l lo hi) (old_cells ps a)

  pub cells_after_append :
      cells (header_after h (length cell) none) (written h bytes cell)
      ≡ cells h bytes ++ (cell ∷ [])
  cells_after_append =
      ap (map (read_cell_data (written h bytes cell))) pointers_after
      ∙ map-append (read_cell_data (written h bytes cell)) (read_cell_pointers h bytes)
          ((h.free_space_offset, length cell) ∷ [])
      ∙ ap₂ ◌++◌ (old_cells (read_cell_pointers h bytes) p.pointers) (ap (λ c. c ∷ []) new_cell)

  pub written-IsPage : IsPage page_size (header_after h (length cell) none) (written h bytes cell)
  written-IsPage = record {
    len = length-written;
    stored = stored_after;
    fits = after_Fits;
    free_low = omega (arith, p.free_low);
    free_high = room;
    cells = omega arith;
    pointers = rw pointers_after (
        AllBelow-append (h.free_space_offset + length cell) (read_cell_pointers h bytes)
          (h.free_space_offset, length cell)
          (AllBelow-mono (read_cell_pointers h bytes) h.free_space_offset
            (h.free_space_offset + length cell) (omega arith) p.pointers)
          (p.free_low) (omega arith));
  }
