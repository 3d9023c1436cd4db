-- ===== src/Collection/Cells/Laws.antt =====
-- Cells are read back as they were written, and a tombstone is told from a document.
use mathlib.Core.Option
use embeddb.Base.{
  ℕ, zero, suc, ◌+◌, ◌%◌, ◌^◌, ◌<◌, ◌≤◌, ◌≡◌, refl, ap, sym, ◌∙◌, Bool, true, false, Option, none,
  some, List, [], ◌∷◌, ◌++◌, ltb, if◌then◌else◌, length, take, drop, arith, length-append,
  length-drop, drop-drop, drop-append_self, take-append, take_all, drop_all, le→ltb, lt→ltb, ==_ne,
  ==_refl, Bool-cases, inl, inr,
}
use embeddb.Base.Bytes.{slice, to_le, from_le, from_le-to_le}
use embeddb.Collection.Cells.{
  vector_bytes, encode_vector_cell, decode_vector, decode_vector_cell, make_tombstone_cell,
  is_tombstone, cell_is_tombstone, encode_metadata_cell, decode_metadata_cell,
}

abbrev pub AllU32 : List ℕ → Type 0
AllU32 [] = Unit
AllU32 (v ∷ vs) = (v < 2 ^ 32) × AllU32 vs

-- A document whose numbers fit their types and whose id is text.
pub record DocumentFits (utf8 : List ℕ → Bool) (doc_id : List ℕ) (internal_id : ℕ) (vector : List ℕ)
    : Type 0 where
  pub text : utf8 doc_id ≡ true
  pub id_length : length doc_id < 2 ^ 32
  pub internal : internal_id < 2 ^ 64
  pub count : length vector < 2 ^ 32
  pub bits : AllU32 vector

read_vector : ℕ → List ℕ → Option (List ℕ)
read_vector zero bytes = some []
read_vector (suc count) bytes =
    let rest = read_vector count (drop 4 bytes) in
    if ltb (length bytes) 4 then none else Option.map (◌∷◌ (from_le (take 4 bytes))) rest

decode-read_vector :
    (count off : ℕ) (bytes : List ℕ)
    → decode_vector count off bytes ≡ read_vector count (drop off bytes)
unfolding decode_vector read_vector
decode-read_vector zero off bytes = refl
decode-read_vector (suc count) off bytes =
    rw (short, decode-read_vector count (off + 4) bytes, sym (drop-drop 4 off bytes)) refl
  where
    short : ltb (length bytes) (off + 4) ≡ ltb (length (drop off bytes)) 4
    short = ground (arith, length-drop off bytes)

read-vector_bytes : (vs : List ℕ) → AllU32 vs → read_vector (length vs) (vector_bytes vs) ≡ some vs
unfolding read_vector vector_bytes
read-vector_bytes [] fit = refl
read-vector_bytes (v ∷ vs) (fit, more) =
    rw
      (
        le→ltb (length (to_le 4 v ++ vector_bytes vs)) 4 (omega arith),
        from_le-to_le 4 v fit,
        read-vector_bytes vs more,
      )
      refl

decode-layout :
    (utf8 : List ℕ → Bool) (cell doc_id : List ℕ) (internal_id count : ℕ) (vector : List ℕ)
    → from_le (slice 0 4 cell) ≡ length doc_id
    → slice 4 (length doc_id) cell ≡ doc_id
    → from_le (slice (4 + length doc_id) 8 cell) ≡ internal_id
    → from_le (slice (4 + length doc_id + 8) 4 cell) ≡ count
    → 4 + length doc_id + 8 + 4 ≤ length cell
    → utf8 doc_id ≡ true
    → decode_vector count (4 + length doc_id + 8 + 4) cell ≡ some vector
    → decode_vector_cell utf8 cell ≡ some (doc_id, internal_id, vector)
unfolding decode_vector_cell
decode-layout utf8 cell doc_id internal_id count vector at0 at4 at_id at_count long text read =
    rw
      (
        at0,
        at4,
        at_id,
        at_count,
        le→ltb (length cell) 12 (omega (arith, long)),
        le→ltb (length cell) (4 + length doc_id + 8 + 4) long,
        text,
        read,
      )
      refl

module _ (doc_id : List ℕ) (internal_id : ℕ) (vector : List ℕ) where
  numbers : List ℕ
  numbers = to_le 8 internal_id ++ (to_le 4 (length vector % 2 ^ 32) ++ vector_bytes vector)

  cell : List ℕ
  cell = encode_vector_cell doc_id internal_id vector

  behind_id : drop (4 + length doc_id) cell ≡ numbers
  unfolding cell encode_vector_cell numbers
  behind_id = sym (drop-drop (length doc_id) 4 cell) ∙ drop-append_self doc_id numbers

  behind_internal : drop (4 + length doc_id + 8) cell ≡ drop 8 numbers
  behind_internal = sym (drop-drop 8 (4 + length doc_id) cell) ∙ ap (drop 8) behind_id

  behind_count : drop (4 + length doc_id + 8 + 4) cell ≡ vector_bytes vector
  unfolding numbers
  behind_count = sym (drop-drop 4 (4 + length doc_id + 8) cell) ∙ ap (drop 4) behind_internal

  length-numbers : 12 ≤ length numbers
  unfolding numbers
  length-numbers = omega arith

  cell_parts : cell ≡ to_le 4 (length doc_id % 2 ^ 32) ++ (doc_id ++ numbers)
  unfolding cell encode_vector_cell numbers
  cell_parts = refl

  length-cell : 4 + length doc_id + 8 + 4 ≤ length cell
  length-cell = omega (arith, ap length cell_parts, length-append doc_id numbers, length-numbers)

  module _ (utf8 : List ℕ → Bool) (fits : DocumentFits utf8 doc_id internal_id vector) where
    at_start : from_le (slice 0 4 cell) ≡ length doc_id
    unfolding cell encode_vector_cell
    at_start =
        rw (from_le-to_le 4 (length doc_id % 2 ^ 32) (omega arith)) (omega (arith, fits.id_length))

    id_part : slice 4 (length doc_id) cell ≡ doc_id
    unfolding cell encode_vector_cell numbers
    id_part = take-append doc_id numbers

    internal_part : from_le (take 8 numbers) ≡ internal_id
    unfolding numbers
    internal_part = from_le-to_le 8 internal_id fits.internal

    count_part : from_le (take 4 (drop 8 numbers)) ≡ length vector
    unfolding numbers
    count_part =
        rw (from_le-to_le 4 (length vector % 2 ^ 32) (omega arith)) (omega (arith, fits.count))

    -- The cell of a document with a text id and numbers in the range of their types is read back as
    -- its id, internal id and vector, bit for bit.
    pub decode-encode_vector_cell :
        decode_vector_cell utf8 (encode_vector_cell doc_id internal_id vector)
        ≡ some (doc_id, internal_id, vector)
    unfolding cell
    decode-encode_vector_cell =
        decode-layout utf8 cell doc_id internal_id (length vector) vector at_start id_part
          (ap (λ b. from_le (take 8 b)) behind_id ∙ internal_part)
          (ap (λ b. from_le (take 4 b)) behind_internal ∙ count_part) length-cell fits.text
          (decode-read_vector (length vector) (4 + length doc_id + 8 + 4) cell
            ∙ ap (read_vector (length vector)) behind_count
            ∙ read-vector_bytes vector fits.bits)

    -- The cell of a document with a text id and numbers in range is not taken for a tombstone.
    pub vector_cell-not_tombstone :
        cell_is_tombstone (encode_vector_cell doc_id internal_id vector) ≡ false
    unfolding cell_is_tombstone is_tombstone cell
    vector_cell-not_tombstone =
        rw
          (
            le→ltb (length cell) 4 (omega (arith, length-cell)),
            at_start,
            ==_ne (length cell) (4 + length doc_id) (omega (arith, length-cell)),
          )
          refl

id_prefix :
    (id rest : List ℕ)
    → length id < 2 ^ 32
    → from_le (slice 0 4 (to_le 4 (length id % 2 ^ 32) ++ rest)) ≡ length id
id_prefix id rest short = from_le-to_le 4 (length id % 2 ^ 32) (omega arith) ∙ omega (arith, short)

tombstone_of :
    (bytes : List ℕ) (n : ℕ)
    → from_le (slice 0 4 bytes) ≡ n
    → length bytes ≡ 4 + n
    → cell_is_tombstone bytes ≡ true
unfolding cell_is_tombstone is_tombstone
tombstone_of bytes n at0 long =
    rw (le→ltb (length bytes) 4 (omega (arith, long)), at0, long, ==_refl (4 + n)) refl

no_document :
    (utf8 : List ℕ → Bool) (bytes : List ℕ) (n : ℕ)
    → from_le (slice 0 4 bytes) ≡ n
    → length bytes ≡ 4 + n
    → decode_vector_cell utf8 bytes ≡ none
unfolding decode_vector_cell
no_document utf8 bytes n at0 long = elim (Bool-cases (ltb (length bytes) 12)) [
  | inl short ↦ rw short refl
  | inr whole ↦ rw (whole, at0, lt→ltb (length bytes) (4 + n + 8 + 4) (omega (arith, long))) refl
]

-- The tombstone of an id of less than 2^32 bytes is told as a tombstone and is not read as a
-- document.
pub tombstone-read :
    (utf8 : List ℕ → Bool) (id : List ℕ)
    → length id < 2 ^ 32
    → (cell_is_tombstone (make_tombstone_cell id) ≡ true)
      × (decode_vector_cell utf8 (make_tombstone_cell id) ≡ none)
unfolding make_tombstone_cell
tombstone-read utf8 id short = (
  tombstone_of (to_le 4 (length id % 2 ^ 32) ++ id) (length id) (id_prefix id id short)
      (omega arith),
  no_document utf8 (to_le 4 (length id % 2 ^ 32) ++ id) (length id) (id_prefix id id short)
      (omega arith),
)

-- The id that a tombstone is for.
pub tombstone-id :
    (id : List ℕ)
    → length id < 2 ^ 32
    → slice 4 (from_le (slice 0 4 (make_tombstone_cell id))) (make_tombstone_cell id) ≡ id
unfolding make_tombstone_cell
tombstone-id id short = rw (id_prefix id id short) (take_all (length id) id (omega arith))

module _ {J : Type 0} (to_vec : J → List ℕ) (from_slice : List ℕ → Option J)
    (utf8 : List ℕ → Bool) where
  metadata_of :
      (bytes id json : List ℕ)
      → from_le (slice 0 4 bytes) ≡ length id
      → slice 4 (length id) bytes ≡ id
      → drop (4 + length id) bytes ≡ json
      → 4 + length id ≤ length bytes
      → utf8 id ≡ true
      → decode_metadata_cell to_vec from_slice utf8 bytes
        ≡ Option.map (λ metadata. (id, metadata)) (from_slice json)
  unfolding decode_metadata_cell
  metadata_of bytes id json at0 at4 behind long text =
      rw
        (
          at0,
          at4,
          behind,
          le→ltb (length bytes) 4 (omega (arith, long)),
          le→ltb (length bytes) (4 + length id) long,
          text,
        )
        refl

  -- A metadata cell is read back as its id and its value, for text ids of less than 2^32 bytes, given
  -- that the JSON text of the value is read back.
  pub decode-encode_metadata_cell :
      (id : List ℕ) (metadata : J)
      → from_slice (to_vec metadata) ≡ some metadata
      → utf8 id ≡ true
      → length id < 2 ^ 32
      → decode_metadata_cell to_vec from_slice utf8
          (encode_metadata_cell to_vec from_slice id metadata)
        ≡ some (id, metadata)
  unfolding encode_metadata_cell
  decode-encode_metadata_cell id metadata json text short =
      metadata_of bytes id (to_vec metadata) (id_prefix id (id ++ to_vec metadata) short)
        (take-append id (to_vec metadata))
        (sym (drop-drop (length id) 4 bytes) ∙ drop-append_self id (to_vec metadata))
        (omega (arith, length-append id (to_vec metadata))) text
      ∙ ap (Option.map (λ m. (id, m))) json
    where
      bytes : List ℕ
      bytes = to_le 4 (length id % 2 ^ 32) ++ (id ++ to_vec metadata)

  -- A tombstone is not read as metadata, if the empty text is no value.
  pub tombstone-no_metadata :
      (id : List ℕ)
      → from_slice [] ≡ none
      → length id < 2 ^ 32
      → decode_metadata_cell to_vec from_slice utf8 (make_tombstone_cell id) ≡ none
  unfolding make_tombstone_cell decode_metadata_cell
  tombstone-no_metadata id empty short = elim (Bool-cases (utf8 id)) [
    | inl text ↦
        metadata_of bytes id [] at0 at4 behind (omega arith) text
        ∙ ap (Option.map (λ m. (id, m))) empty
    | inr other ↦
        rw
          (
            at0,
            at4,
            le→ltb (length bytes) 4 (omega arith),
            le→ltb (length bytes) (4 + length id) (omega arith),
            other,
          )
          refl
  ]
    where
      bytes : List ℕ
      bytes = to_le 4 (length id % 2 ^ 32) ++ id

      at0 : from_le (slice 0 4 bytes) ≡ length id
      at0 = id_prefix id id short

      at4 : slice 4 (length id) bytes ≡ id
      at4 = take_all (length id) id (omega arith)

      behind : drop (4 + length id) bytes ≡ []
      behind = sym (drop-drop (length id) 4 bytes) ∙ drop_all (length id) id (omega arith)
