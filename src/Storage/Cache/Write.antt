-- ===== src/Storage/Cache/Write.antt =====
-- crates/vexra-storage/src/page_cache.rs: writing a cell to a page, flushing, and opening a database
-- file. A panic ends the run, so the state behind one is not that of a half-written page.
use embeddb.Base.{
  ℕ, ◌+◌, ◌*◌, ◌%◌, ◌^◌, Bool, true, false, not, Option, none, some, List, [], ◌∷◌, leb, ◌==◌, ◌≡◌,
  ◌≢◌, ◌≤◌, arith, if◌then◌else◌, length, replicate,
}
use embeddb.Base.Bytes.{write_at}
use embeddb.Base.Outcome.{Outcome, ok}
use embeddb.Base.Assoc.{nat_key, lookup, insert}
use embeddb.Storage.Encoding.{copy_from_slice}
use embeddb.Storage.Error.{StorageError}
use embeddb.Storage.Format
use embeddb.Storage.Format.{
  PageHeader, page_header_size, cell_pointer_size, max_cells_per_page, db_header_size, has_room,
  encode_cell_pointer,
}
use embeddb.Storage.Format.DbHeader
use embeddb.Storage.Cache.{
  CachedPage, PageCache, M, ◌>>=◌, ◌>>◌, pure, or_panic, header, get_page, put_page,
  write_page_to_disk,
}

-- `bytes[start..end].copy_from_slice(src)`, which also panics where the lengths differ.
unfoldable pub copy_range : ℕ → ℕ → List ℕ → List ℕ → Option (List ℕ)
copy_range start end src bytes =
    if start + length src == end then copy_from_slice start src bytes else none

abbrev pub bind_option : {A B : Type 0} → Option A → (A → Option B) → Option B
bind_option none f = none
bind_option (some a) f = f a

-- `cell_index.unwrap_or(num_cells)`, and the number of cells behind the write.
abbrev pub chosen_index : Option ℕ → ℕ → ℕ
chosen_index none num_cells = num_cells
chosen_index (some i) num_cells = i

abbrev pub cells_after : Option ℕ → ℕ → ℕ
cells_after none num_cells = num_cells + 1
cells_after (some i) num_cells = num_cells

-- The header that the write leaves.
abbrev pub header_after : PageHeader → ℕ → Option ℕ → PageHeader
header_after h needed cell_index = record h {
  free_space_offset = h.free_space_offset + needed;
  num_cells = cells_after cell_index h.num_cells;
}

-- A copy that fits its range and the buffer does not panic.
pub copy_range-fits :
    (start end : ℕ) (src bytes : List ℕ)
    → start + length src ≡ end
    → end ≤ length bytes
    → copy_range start end src bytes ≡ some (write_at start src bytes)
unfolding copy_range copy_from_slice
copy_range-fits start end src bytes h k = ground arith

pub copy_range-differs :
    (start end : ℕ) (src bytes : List ℕ)
    → start + length src ≢ end
    → copy_range start end src bytes ≡ none
unfolding copy_range
copy_range-differs start end src bytes ne = ground arith

-- The page's bytes after the cell, its pointer and the header are written; `none` is a panic: of a
-- u16 sum or product that overflows, or of a slice. `needed` is the length cast to u16.
unfoldable pub write_cell_bytes : PageHeader → List ℕ → List ℕ → Option ℕ → Option (List ℕ)
write_cell_bytes h bytes cell cell_index =
    let needed = length cell % 2 ^ 16 in
    let cell_end = h.free_space_offset + needed in
    let ptr_offset = page_header_size + chosen_index cell_index h.num_cells * cell_pointer_size in
    if leb (2 ^ 16) cell_end
    then none
    else bind_option (copy_range h.free_space_offset cell_end cell bytes) (λ with_cell.
      if leb (2 ^ 16) ptr_offset
      then none
      else bind_option
          (copy_range ptr_offset (ptr_offset + cell_pointer_size)
            (encode_cell_pointer (h.free_space_offset, needed)) with_cell)
          (λ with_pointer.
            bind_option
              (Format.serialize_to (header_after h needed cell_index)
                (replicate page_header_size 0))
              (λ ph_buf. copy_range 0 page_header_size ph_buf with_pointer)))

-- `write_cell`: false, and nothing written, on a page with 256 cells or without room.
unfoldable pub write_cell : ℕ → List ℕ → Option ℕ → M Bool
write_cell page_id cell cell_index = do
  pg ← get_page page_id
  h ← or_panic (header pg)
  page_size ← λ c. (ok c.page_size, c)
  if leb max_cells_per_page h.num_cells
      then pure false
      else if not (has_room h page_size (length cell % 2 ^ 16))
      then pure false
      else do
        bytes ← or_panic (write_cell_bytes h pg.bytes cell cell_index)
        put_page page_id (record pg { bytes = bytes; dirty = true })
        pure true

abbrev pub flush_entry : ℕ → Option CachedPage → M (Unit {0})
flush_entry page_id none = pure tt
flush_entry page_id (some pg) = if pg.dirty then write_page_to_disk page_id pg.bytes else pure tt

-- The page stays marked dirty.
unfoldable pub flush_page : ℕ → M (Unit {0})
flush_page page_id c = flush_entry page_id (lookup page_id c.pages) c

unfoldable pub flush_list : List (ℕ × CachedPage) → M (Unit {0})
flush_list [] = pure tt
flush_list ((page_id, pg) ∷ pages) = do flush_entry page_id (some pg); flush_list pages

-- `flush_all`, and `close`.
unfoldable pub flush_all : M (Unit {0})
flush_all c = flush_list c.pages c

-- `init_page_zero`.
unfoldable pub init_page_zero : ℕ → M (Unit {0})
init_page_zero now c =
    (do
      header_buf ←
          or_panic
            (DbHeader.serialize_to (DbHeader.new now c.page_size) (replicate db_header_size 0))
      bytes ← or_panic (copy_from_slice 0 header_buf (replicate c.page_size 0))
      write_page_to_disk 0 bytes
      λ d. (
        ok tt,
        record d {
          pages = insert 0 (record { page_id = 0; bytes = bytes; dirty = false }) d.pages;
        },
      ))
      c

-- `open`: a file that does not exist is created with the length of one page, and page 0 is set up.
unfoldable pub open_cache :
    ℕ → ℕ → ℕ → Option (List ℕ) → Outcome StorageError (Unit {0}) × PageCache
open_cache now page_size max_pages none = init_page_zero now (record {
  page_size = page_size;
  max_pages = max_pages;
  pages = [];
  file = replicate page_size 0;
})
open_cache now page_size max_pages (some file) =
    (ok tt, record { page_size = page_size; max_pages = max_pages; pages = []; file = file })
