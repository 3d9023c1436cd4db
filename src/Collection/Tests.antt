-- ===== src/Collection/Tests.antt =====
-- The cells of a collection at concrete inputs. Every byte string counts as text, and the JSON values
-- are numbers of one byte.
use embeddb.Base.{ℕ, ◌≡◌, refl, Bool, true, Option, none, some, List, [], ◌∷◌, arith}
use embeddb.Collection.Cells.{
  encode_vector_cell, decode_vector_cell, encode_metadata_cell, decode_metadata_cell,
}
use embeddb.Collection.Cells.Laws.{
  DocumentFits, decode-encode_vector_cell, decode-encode_metadata_cell,
}

abbrev any_text : List ℕ → Bool
any_text bytes = true

abbrev id_a : List ℕ
id_a = 97 ∷ 49 ∷ []

abbrev vector_a : List ℕ
vector_a = 0x3f80_0000 ∷ 0 ∷ []

fits_a : DocumentFits any_text id_a 7 vector_a
fits_a = record {
  text = refl;
  id_length = omega arith;
  internal = omega arith;
  count = omega arith;
  bits = (omega arith, (omega arith, tt));
}

decode-encode_vector_cell_example :
    decode_vector_cell any_text (encode_vector_cell id_a 7 vector_a) ≡ some (id_a, 7, vector_a)
decode-encode_vector_cell_example = decode-encode_vector_cell id_a 7 vector_a any_text fits_a

abbrev to_byte : ℕ → List ℕ
to_byte j = j ∷ []

abbrev from_byte : List ℕ → Option ℕ
from_byte (j ∷ []) = some j
from_byte _ = none

decode-encode_metadata_cell_example :
    decode_metadata_cell to_byte from_byte any_text (encode_metadata_cell to_byte from_byte id_a 5)
    ≡ some (id_a, 5)
decode-encode_metadata_cell_example =
    decode-encode_metadata_cell to_byte from_byte any_text id_a 5 refl refl (omega arith)
