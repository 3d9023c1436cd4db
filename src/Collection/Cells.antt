-- ===== src/Collection/Cells.antt =====
-- The vector cells, metadata cells and tombstones of crates/vexra-core/src/collection.rs. A document's
-- id is its bytes, an f32 is its 32 bits as a number, and `utf8` is the test of the Rust library for
-- valid UTF-8. JSON values are a type `J` with the serde_json crate's `to_vec` and `from_slice`.
pub mod Laws
use mathlib.Core.Option
use embeddb.Base.{
  ℕ, zero, suc, ◌+◌, ◌%◌, ◌^◌, Bool, not, Option, none, some, List, [], ◌∷◌, ◌++◌, ltb, ◌==◌,
  if◌then◌else◌, length, drop,
}
use embeddb.Base.Bytes.{slice, to_le, from_le}

unfoldable pub vector_bytes : List ℕ → List ℕ
vector_bytes [] = []
vector_bytes (v ∷ vs) = to_le 4 v ++ vector_bytes vs

unfoldable pub encode_vector_cell : List ℕ → ℕ → List ℕ → List ℕ
encode_vector_cell doc_id internal_id vector =
    to_le 4 (length doc_id % 2 ^ 32)
    ++ (doc_id
        ++ (to_le 8 internal_id ++ (to_le 4 (length vector % 2 ^ 32) ++ vector_bytes vector)))

-- The loop over `count` numbers from `off` on.
unfoldable pub decode_vector : ℕ → ℕ → List ℕ → Option (List ℕ)
decode_vector zero off bytes = some []
decode_vector (suc count) off bytes =
    let rest = decode_vector count (off + 4) bytes in
    if ltb (length bytes) (off + 4)
    then none
    else Option.map (◌∷◌ (from_le (slice off 4 bytes))) rest

unfoldable pub decode_vector_cell : (List ℕ → Bool) → List ℕ → Option (List ℕ × ℕ × List ℕ)
decode_vector_cell utf8 bytes =
    let id_len = from_le (slice 0 4 bytes) in
    let doc_id = slice 4 id_len bytes in
    let internal_id = from_le (slice (4 + id_len) 8 bytes) in
    let count = from_le (slice (4 + id_len + 8) 4 bytes) in
    if ltb (length bytes) 12
    then none
    else if ltb (length bytes) (4 + id_len + 8 + 4)
    then none
    else if not (utf8 doc_id)
    then none
    else Option.map (λ vector. (doc_id, internal_id, vector))
        (decode_vector count (4 + id_len + 8 + 4) bytes)

unfoldable pub make_tombstone_cell : List ℕ → List ℕ
make_tombstone_cell id = to_le 4 (length id % 2 ^ 32) ++ id

unfoldable pub is_tombstone : List ℕ → ℕ → Bool
is_tombstone bytes id_len = length bytes == 4 + id_len

-- The test of `collect_tombstones` and `load_vectors` on a cell.
unfoldable pub cell_is_tombstone : List ℕ → Bool
cell_is_tombstone bytes =
    if ltb (length bytes) 4 then Bool.false else is_tombstone bytes (from_le (slice 0 4 bytes))

module _ {J : Type 0} (to_vec : J → List ℕ) (from_slice : List ℕ → Option J) where
  unfoldable pub encode_metadata_cell : List ℕ → J → List ℕ
  encode_metadata_cell id metadata = to_le 4 (length id % 2 ^ 32) ++ (id ++ to_vec metadata)

  unfoldable pub decode_metadata_cell : (List ℕ → Bool) → List ℕ → Option (List ℕ × J)
  decode_metadata_cell utf8 bytes =
      let id_len = from_le (slice 0 4 bytes) in
      let id = slice 4 id_len bytes in
      if ltb (length bytes) 4
      then none
      else if ltb (length bytes) (4 + id_len)
      then none
      else if not (utf8 id)
      then none
      else Option.map (λ metadata. (id, metadata)) (from_slice (drop (4 + id_len) bytes))
