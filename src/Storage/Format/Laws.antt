-- ===== src/Storage/Format/Laws.antt =====
-- Page headers and cell pointers survive their encoding (format.rs).
use embeddb.Base.{
  ℕ, ◌^◌, ◌<◌, ◌≤◌, ◌≡◌, refl, ap, ◌∙◌, some, List, [], ◌∷◌, ◌++◌, arith, length, drop, le→ltb,
  append_assoc, ◌↔◌,
}
use embeddb.Base.Bytes.{
  write_at, to_le, from_le-to_le, length-write_at, write_at-write_at_next, slice-write_at_inside,
  drop-write_at_after,
}
use native.Mathlib.Nat.{add-zero}
use embeddb.Storage.Format.{
  PageHeader, PageType, to_u8, from_u8, serialize_to, deserialize_from, decode_cell_pointers,
  encode_cell_pointer,
}

-- Every field is in the range of its Rust type.
pub record Fits (h : PageHeader) : Type 0 where
  pub page_type : h.page_type < 2 ^ 8
  pub collection_id : h.collection_id < 2 ^ 32
  pub free_space_offset : h.free_space_offset < 2 ^ 16
  pub num_cells : h.num_cells < 2 ^ 16
  pub crc32 : h.crc32 < 2 ^ 32
  pub flags : h.flags < 2 ^ 16
  pub pad : h.pad < 2 ^ 8

-- The sixteen bytes of a header, field by field.
abbrev pub header_bytes : PageHeader → List ℕ
header_bytes h =
    h.page_type
    ∷ (to_le 4 h.collection_id
        ++ to_le 2 h.free_space_offset
        ++ to_le 2 h.num_cells
        ++ to_le 4 h.crc32
        ++ to_le 2 h.flags
        ++ (h.pad ∷ []))

pub serialize_to-header_bytes :
    (h : PageHeader) (buf : List ℕ)
    → 16 ≤ length buf
    → serialize_to h buf ≡ some (write_at 0 (header_bytes h) buf)
unfolding serialize_to
serialize_to-header_bytes h buf k = rw (
  le→ltb (length buf) 16 k,
  write_at-write_at_next 1 0 (h.page_type ∷ []) (to_le 4 h.collection_id) buf refl,
  write_at-write_at_next 5 0 _ (to_le 2 h.free_space_offset) buf refl,
  write_at-write_at_next 7 0 _ (to_le 2 h.num_cells) buf refl,
  write_at-write_at_next 9 0 _ (to_le 4 h.crc32) buf refl,
  write_at-write_at_next 13 0 _ (to_le 2 h.flags) buf refl,
  write_at-write_at_next 15 0 _ (h.pad ∷ []) buf refl,
)

pub deserialize-write_at :
    (h : PageHeader) (buf : List ℕ)
    → Fits h
    → deserialize_from (write_at 0 (header_bytes h) buf) ≡ some h
unfolding deserialize_from
deserialize-write_at h buf f = rw (
  le→ltb (length (write_at 0 (header_bytes h) buf)) 16
      (omega (arith, length-write_at 0 (header_bytes h) buf)),
  slice-write_at_inside 0 1 (header_bytes h) buf (omega arith),
  slice-write_at_inside 1 4 (header_bytes h) buf (omega arith),
  slice-write_at_inside 5 2 (header_bytes h) buf (omega arith),
  slice-write_at_inside 7 2 (header_bytes h) buf (omega arith),
  slice-write_at_inside 9 4 (header_bytes h) buf (omega arith),
  slice-write_at_inside 13 2 (header_bytes h) buf (omega arith),
  slice-write_at_inside 15 1 (header_bytes h) buf (omega arith),
  from_le-to_le 4 h.collection_id f.collection_id,
  from_le-to_le 2 h.free_space_offset f.free_space_offset,
  from_le-to_le 2 h.num_cells f.num_cells,
  from_le-to_le 4 h.crc32 f.crc32,
  from_le-to_le 2 h.flags f.flags,
  add-zero h.page_type,
  add-zero h.pad,
)

-- A header whose fields fit their types, serialized into any buffer of at least sixteen bytes, is
-- read back as it was; the buffer keeps its length and every byte from offset sixteen on.
pub deserialize-serialize :
    (h : PageHeader) (buf : List ℕ) {out : List ℕ}
    → Fits h
    → 16 ≤ length buf
    → serialize_to h buf ≡ some out
    → (deserialize_from out ≡ some h) × (length out ≡ length buf) × (drop 16 out ≡ drop 16 buf)
deserialize-serialize h buf {out} f k e =
    let out_eq : out ≡ write_at 0 (header_bytes h) buf =
      cc (e, serialize_to-header_bytes h buf k) in
    (
      ap deserialize_from out_eq ∙ deserialize-write_at h buf f,
      ap length out_eq ∙ length-write_at 0 (header_bytes h) buf ∙ omega arith,
      ap (drop 16) out_eq ∙ drop-write_at_after 16 0 (header_bytes h) buf (omega arith),
    )

-- A tag byte is accepted exactly when it is the number of a page type, and then gives that type.
pub from_u8-iff_to_u8 : (v : ℕ) (t : PageType) → (from_u8 v ≡ some t) ↔ (v ≡ to_u8 t)
unfolding from_u8 to_u8
from_u8-iff_to_u8 v t = (there v t, back v t)
  where
    there : (v : ℕ) (t : PageType) → from_u8 v ≡ some t → v ≡ to_u8 t
    there v t h = ground arith

    back : (v : ℕ) (t : PageType) → v ≡ to_u8 t → from_u8 v ≡ some t
    back v PageType.free h = ground arith
    back v PageType.vector h = ground arith
    back v PageType.hnsw_edge h = ground arith
    back v PageType.metadata h = ground arith
    back v PageType.catalog h = ground arith

-- A cell pointer whose two numbers are u16s.
abbrev pub IsCellPointer : ℕ × ℕ → Type 0
IsCellPointer p = (p.0 < 2 ^ 16) × (p.1 < 2 ^ 16)

abbrev pub AllPointers : List (ℕ × ℕ) → Type 0
AllPointers [] = Unit
AllPointers (p ∷ ps) = IsCellPointer p × AllPointers ps

abbrev pub encode_all : List (ℕ × ℕ) → List ℕ
encode_all [] = []
encode_all (p ∷ ps) = encode_cell_pointer p ++ encode_all ps

pub decode-encode_cons :
    (p : ℕ × ℕ) (raw : List ℕ)
    → IsCellPointer p
    → decode_cell_pointers (encode_cell_pointer p ++ raw) ≡ p ∷ decode_cell_pointers raw
unfolding decode_cell_pointers encode_cell_pointer
decode-encode_cons (a, b) raw (ha, hb) = rw (from_le-to_le 2 a ha, from_le-to_le 2 b hb)

-- A pointer array of u16 pairs, followed by fewer than four stray bytes, decodes to the array.
pub decode-encode_all :
    (ps : List (ℕ × ℕ)) (rest : List ℕ)
    → AllPointers ps
    → length rest < 4
    → decode_cell_pointers (encode_all ps ++ rest) ≡ ps
decode-encode_all [] rest h k = short rest k
  where
    short : (rest : List ℕ) → length rest < 4 → decode_cell_pointers rest ≡ []
    short [] k = unfold decode_cell_pointers in refl
    short (a ∷ []) k = unfold decode_cell_pointers in refl
    short (a ∷ b ∷ []) k = unfold decode_cell_pointers in refl
    short (a ∷ b ∷ c ∷ []) k = unfold decode_cell_pointers in refl
    short (a ∷ b ∷ c ∷ d ∷ r) k = absurd (omega arith)
decode-encode_all (p ∷ ps) rest (hp, hs) k =
    ap decode_cell_pointers (append_assoc (encode_cell_pointer p) (encode_all ps) rest)
    ∙ decode-encode_cons p (encode_all ps ++ rest) hp
    ∙ ap (◌∷◌ p) (decode-encode_all ps rest hs k)
