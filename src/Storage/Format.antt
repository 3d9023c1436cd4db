-- ===== src/Storage/Format.antt =====
-- crates/vexra-storage/src/format.rs: page types, the 16-byte page header, cell pointers and cell
-- data. A byte is a number below 256, and a page is a list of bytes. The database header is in
-- Format/DbHeader. The checksum function of the crc32fast crate is an argument, `crc`.
pub mod Laws
pub mod DbHeader
pub mod PageChecks
use embeddb.Base.{
  ℕ, suc, ◌+◌, ◌-◌, ◌*◌, ◌%◌, ◌^◌, ◌<◌, Bool, true, false, Option, none, some, List, [], ◌∷◌, ◌++◌,
  ltb, leb, ◌==◌, if◌then◌else◌, length, take, drop, replicate,
}
use embeddb.Base.Bytes.{slice, write_at, to_le, from_le}

abbrev pub page_header_size : ℕ
page_header_size = 16

abbrev pub db_header_size : ℕ
db_header_size = 100

abbrev pub cell_pointer_size : ℕ
cell_pointer_size = 4

abbrev pub max_cells_per_page : ℕ
max_cells_per_page = 256

-- 16 + 256 * 4
abbrev pub data_start_offset : ℕ
data_start_offset = 1040

pub data PageType : Type 0 where
  free vector hnsw_edge metadata catalog : PageType

-- `page_type as u8`.
unfoldable pub to_u8 : PageType → ℕ
to_u8 PageType.free = 0
to_u8 PageType.vector = 1
to_u8 PageType.hnsw_edge = 2
to_u8 PageType.metadata = 3
to_u8 PageType.catalog = 4

unfoldable pub from_u8 : ℕ → Option PageType
from_u8 v =
    if v == 0
    then some PageType.free
    else if v == 1
    then some PageType.vector
    else if v == 2
    then some PageType.hnsw_edge
    else if v == 3
    then some PageType.metadata
    else if v == 4
    then some PageType.catalog
    else none

pub record PageHeader : Type 0 where
  pub page_type : ℕ
  pub collection_id : ℕ
  pub free_space_offset : ℕ
  pub num_cells : ℕ
  pub crc32 : ℕ
  pub flags : ℕ
  pub pad : ℕ

-- `PageHeader::new`.
unfoldable pub new : PageType → ℕ → PageHeader
unfolding to_u8
new page_type collection_id = record {
  page_type = to_u8 page_type;
  collection_id = collection_id;
  free_space_offset = data_start_offset;
  num_cells = 0;
  crc32 = 0;
  flags = 0;
  pad = 0;
}

-- `serialize_to` of a buffer of at least 16 bytes; `none` is the panic on a shorter one.
unfoldable pub serialize_to : PageHeader → List ℕ → Option (List ℕ)
serialize_to h buf =
    if ltb (length buf) page_header_size
    then none
    else some (
        write_at 15 (h.pad ∷ []) (
          write_at 13 (to_le 2 h.flags) (
            write_at 9 (to_le 4 h.crc32) (
              write_at 7 (to_le 2 h.num_cells) (
                write_at 5 (to_le 2 h.free_space_offset)
                  (write_at 1 (to_le 4 h.collection_id) (write_at 0 (h.page_type ∷ []) buf)))))))

unfoldable pub deserialize_from : List ℕ → Option PageHeader
deserialize_from buf =
    if ltb (length buf) page_header_size
    then none
    else some (record {
      page_type = from_le (slice 0 1 buf);
      collection_id = from_le (slice 1 4 buf);
      free_space_offset = from_le (slice 5 2 buf);
      num_cells = from_le (slice 7 2 buf);
      crc32 = from_le (slice 9 4 buf);
      flags = from_le (slice 13 2 buf);
      pad = from_le (slice 15 1 buf);
    })

unfoldable pub has_room : PageHeader → ℕ → ℕ → Bool
has_room h page_size needed =
    if leb max_cells_per_page h.num_cells
    then false
    else leb (h.free_space_offset + needed) page_size

-- The cast `as u16` keeps the low 16 bits.
unfoldable pub free_space : PageHeader → ℕ → ℕ
free_space h page_size =
    if leb page_size h.free_space_offset then 0 else (page_size - h.free_space_offset) % 2 ^ 16

unfoldable pub read_page_header : List ℕ → Option PageHeader
unfolding deserialize_from
read_page_header page =
    if ltb (length page) page_header_size
    then none
    else deserialize_from (take page_header_size page)

-- `serialize_to` writes into `data[..16]`; a shorter page is left alone.
unfoldable pub write_page_header : List ℕ → PageHeader → Option (List ℕ)
unfolding serialize_to
write_page_header page h =
    if leb page_header_size (length page) then serialize_to h page else some page

unfoldable pub read_cell_pointers_raw : PageHeader → List ℕ → List ℕ
read_cell_pointers_raw h page =
    let end = page_header_size + h.num_cells * cell_pointer_size in
    if ltb (length page) end
    then []
    else slice page_header_size (h.num_cells * cell_pointer_size) page

-- `chunks_exact(4)`: a shorter rest is dropped.
unfoldable pub decode_cell_pointers : List ℕ → List (ℕ × ℕ)
decode_cell_pointers (a ∷ b ∷ c ∷ d ∷ raw) =
    (from_le (a ∷ b ∷ []), from_le (c ∷ d ∷ [])) ∷ decode_cell_pointers raw
decode_cell_pointers _ = []

unfoldable pub encode_cell_pointer : ℕ × ℕ → List ℕ
encode_cell_pointer (offset, len) = to_le 2 offset ++ to_le 2 len

unfoldable pub read_cell_pointers : PageHeader → List ℕ → List (ℕ × ℕ)
unfolding read_cell_pointers_raw decode_cell_pointers
read_cell_pointers h page = decode_cell_pointers (read_cell_pointers_raw h page)

unfoldable pub read_cell_data : List ℕ → ℕ × ℕ → List ℕ
read_cell_data page (start, len) =
    if ltb (length page) (start + len) then [] else slice start len page

-- `compute_crc`; `none` is the panic on a page shorter than its header.
unfoldable pub compute_crc : (List ℕ → ℕ) → PageHeader → List ℕ → Option PageHeader
compute_crc crc h page =
    if ltb (length page) page_header_size
    then none
    else some (record h { crc32 = crc (drop page_header_size page) })

-- `verify_crc`: the hasher is fed the header, its checksum zeroed, and then the data.
unfoldable pub verify_crc : (List ℕ → ℕ) → PageHeader → List ℕ → Option Bool
unfolding serialize_to
verify_crc crc h page =
    if ltb (length page) page_header_size
    then none
    else (elim (serialize_to (record h { crc32 = 0 }) (replicate page_header_size 0)) [
      | none ↦ none
      | some header_buf ↦ some (crc (header_buf ++ drop page_header_size page) == h.crc32)
    ])
