-- ===== src/Storage/Tests.antt =====
-- Concrete runs of the storage model, and its theorems at concrete inputs.
use embeddb.Base.{
  ℕ, ◌+◌, ◌^◌, ◌≡◌, refl, false, Option, none, some, List, [], ◌∷◌, arith, length, drop, replicate,
}
use embeddb.Base.Bytes.{write_at}
use embeddb.Base.Assoc.{nat_key}
use embeddb.Storage.Encoding.{copy_from_slice, write_u32_le, write_u64_le}
use embeddb.Storage.Format
use embeddb.Storage.Format.{
  PageHeader, PageType, to_u8, from_u8, decode_cell_pointers, encode_cell_pointer, compute_crc,
  verify_crc, deserialize_from, has_room, read_cell_pointers, read_cell_pointers_raw,
  read_page_header, read_cell_data,
}
use embeddb.Storage.Format.Laws.{
  Fits as HeaderFits, header_bytes, serialize_to-header_bytes, deserialize-serialize,
}
use embeddb.Storage.Format.PageChecks.{verify-compute_crc}
use embeddb.Storage.Format.DbHeader
use embeddb.Storage.Format.DbHeader.{DbHeader}
use embeddb.Storage.Format.DbHeader.Laws.{Fits as DbFits, db_header_roundtrip}

-- A checksum that tells inputs apart by their sum.
sum : List ℕ → ℕ
sum [] = 0
sum (b ∷ bs) = b + sum bs

abbrev ones : List ℕ
ones = replicate 16 1

abbrev out_u32 : List ℕ
out_u32 = 1 ∷ 1 ∷ 1 ∷ 1 ∷ 7 ∷ 0 ∷ 0 ∷ 0 ∷ replicate 8 1

written_u32 : write_u32_le ones 4 7 ≡ some out_u32
unfolding write_u32_le copy_from_slice write_at
written_u32 = refl

abbrev out_u64 : List ℕ
out_u64 = 0 ∷ 0 ∷ 0 ∷ 0 ∷ 1 ∷ 0 ∷ 0 ∷ 0 ∷ replicate 8 1

written_u64 : write_u64_le ones 0 (2 ^ 32) ≡ some out_u64
unfolding write_u64_le copy_from_slice write_at
written_u64 = refl

abbrev vector_header : PageHeader
vector_header = record {
  page_type = 1;
  collection_id = 42;
  free_space_offset = 1040;
  num_cells = 0;
  crc32 = 0;
  flags = 0;
  pad = 0;
}

vector_header-Fits : HeaderFits vector_header
vector_header-Fits = record {
  page_type = omega arith;
  collection_id = omega arith;
  free_space_offset = omega arith;
  num_cells = omega arith;
  crc32 = omega arith;
  flags = omega arith;
  pad = omega arith;
}

vector_header_lem : Format.new PageType.vector 42 ≡ vector_header
unfolding Format.new
vector_header_lem = refl

deserialize-serialize_example :
    (deserialize_from (write_at 0 (header_bytes vector_header) ones) ≡ some vector_header)
    × (length (write_at 0 (header_bytes vector_header) ones) ≡ length ones)
    × (drop 16 (write_at 0 (header_bytes vector_header) ones) ≡ drop 16 ones)
deserialize-serialize_example =
    deserialize-serialize vector_header ones vector_header-Fits (omega arith)
      (serialize_to-header_bytes vector_header ones (omega arith))

-- The page checksum that is stored is not the one that is verified.
verify_refuses : verify_crc sum (record vector_header { crc32 = 5 }) (replicate 21 1) ≡ some false
unfolding sum
verify_refuses =
    verify-compute_crc sum vector_header (replicate 21 1) (omega arith)
      (unfold compute_crc sum in refl)

abbrev db : DbHeader
db = record {
  magic = DbHeader.magic_filled;
  format_version = 1;
  page_size = 4096;
  page_count = 3;
  catalog_root_page = 1;
  wal_sequence = 0;
  created_at = 1700000000;
  last_checkpoint = 0;
  checksum = 0;
  reserved = replicate 32 0;
}

db-Fits : DbFits db
db-Fits = record {
  magic = refl;
  format_version = omega arith;
  page_size = omega arith;
  page_count = omega arith;
  catalog_root_page = omega arith;
  wal_sequence = omega arith;
  created_at = omega arith;
  last_checkpoint = omega arith;
  checksum = omega arith;
  reserved = refl;
}

abbrev db_bytes : Option (List ℕ) → List ℕ
db_bytes none = []
db_bytes (some b) = b

db_header_roundtrip_example :
    (DbHeader.deserialize_from (db_bytes (DbHeader.serialize_to db (replicate 120 7))) ≡ some db)
    × (length (db_bytes (DbHeader.serialize_to db (replicate 120 7))) ≡ 120)
    × (drop 100 (db_bytes (DbHeader.serialize_to db (replicate 120 7))) ≡ replicate 20 7)
db_header_roundtrip_example =
    db_header_roundtrip db (replicate 120 7) db-Fits (omega arith)
      (unfold DbHeader.serialize_to in refl)

abbrev db_summed : DbHeader
db_summed = record db { checksum = (DbHeader.update_checksum sum db).checksum }

db_summed-Fits : DbFits db_summed
unfolding DbHeader.update_checksum DbHeader.serialize_to write_at sum
db_summed-Fits = record {
  magic = refl;
  format_version = omega arith;
  page_size = omega arith;
  page_count = omega arith;
  catalog_root_page = omega arith;
  wal_sequence = omega arith;
  created_at = omega arith;
  last_checkpoint = omega arith;
  checksum = omega arith;
  reserved = refl;
}
