-- ===== src/Storage/Cache.antt =====
-- crates/vexra-storage/src/page_cache.rs: the page cache. The state is the configuration, the map
-- of cached pages, and the bytes of the database file. A method takes the state and returns it with
-- an outcome, also where it fails. The map's iteration order is that of the list; the source's is
-- arbitrary, and the theorems hold for a list in any order. Locks are left out: each call runs
-- alone. An `Arc` of a page is the page's entry in the map. Page numbers times the page size stay
-- below 2^64, so file offsets are plain numbers.
pub mod Pages
pub mod Reads
pub mod Write
pub mod Cells
pub mod Appends
mod Disk
pub mod Flush
mod Tests
use embeddb.Base.{
  ℕ, suc, ◌+◌, ◌-◌, ◌*◌, ◌%◌, ◌^◌, ◌<◌, Bool, true, false, not, ◌&&◌, Option, none, some, List, [],
  ◌∷◌, ◌++◌, ltb, leb, ◌==◌, if◌then◌else◌, length, take, replicate, get_elem?,
}
use embeddb.Base.Bytes.{slice, write_at}
use embeddb.Base.Outcome.{Outcome, ok, err, panic}
use embeddb.Base.Assoc.{nat_key, lookup, insert}
use embeddb.Storage.Encoding.{copy_from_slice}
use embeddb.Storage.Error.{StorageError, io, invalid_file}
use embeddb.Storage.Format
use embeddb.Storage.Format.{
  PageHeader, PageType, page_header_size, cell_pointer_size, max_cells_per_page, db_header_size,
  has_room, encode_cell_pointer, read_page_header, read_cell_pointers, read_cell_data,
}
use embeddb.Storage.Format.DbHeader
use embeddb.Storage.Format.DbHeader.{DbHeader}

pub record CachedPage : Type 0 where
  pub page_id : ℕ
  pub bytes : List ℕ
  pub dirty : Bool

pub record PageCache : Type 0 where
  pub page_size : ℕ
  pub max_pages : ℕ
  pub pages : List (ℕ × CachedPage)
  pub file : List ℕ

abbrev pub M : Type 0 → Type 0
M A = PageCache → Outcome StorageError A × PageCache

abbrev pub continue : {A B : Type 0} → Outcome StorageError A → (A → M B) → M B
continue (ok a) f c = f a c
continue (err e) f c = (err e, c)
continue panic f c = (panic, c)

infixl 5 ◌>>=◌ ◌>>◌
abbrev pub ◌>>=◌ : {A B : Type 0} → M A → (A → M B) → M B
◌>>=◌ m f c = continue (m c).0 f (m c).1

abbrev pub ◌>>◌ : {A B : Type 0} → M A → M B → M B
m >> k = m >>= λ _. k

abbrev pub pure : {A : Type 0} → A → M A
pure a c = (ok a, c)

-- A slice operation that panics out of range.
abbrev pub or_panic : {A : Type 0} → Option A → M A
or_panic none c = (panic, c)
or_panic (some a) c = (ok a, c)

-- `CachedPage::header`: page 0 has a synthetic one. `expect` panics on a page shorter than a header.
unfoldable pub header : CachedPage → Option PageHeader
header pg =
    if pg.page_id == 0 then some (Format.new PageType.catalog 0) else read_page_header pg.bytes

abbrev pub cell_at : List ℕ → Option (ℕ × ℕ) → Option (List ℕ)
cell_at bytes none = none
cell_at bytes (some ptr) = some (read_cell_data bytes ptr)

-- `CachedPage::cell_data` under a header that was read.
unfoldable pub cell_data_under : PageHeader → List ℕ → ℕ → Option (List ℕ)
cell_data_under h bytes index =
    if leb h.num_cells index
    then none
    else cell_at bytes (get_elem? (read_cell_pointers h bytes) index)

-- The outer `none` is the panic of `header`.
unfoldable pub cell_data : CachedPage → ℕ → Option (Option (List ℕ))
cell_data pg index = elim (header pg) [
  | none ↦ none
  | some h ↦ some (cell_data_under h pg.bytes index)
]

unfoldable pub read_page_from_disk : ℕ → M (List ℕ)
read_page_from_disk page_id c =
    let offset = page_id * c.page_size in
    if ltb (length c.file) (offset + c.page_size)
    then (err io, c)
    else (ok (slice offset c.page_size c.file), c)

-- `set_len` to a larger size appends zeros.
unfoldable pub set_len : ℕ → List ℕ → List ℕ
set_len n file = if ltb (length file) n then file ++ replicate (n - length file) 0 else file

unfoldable pub write_page_to_disk : ℕ → List ℕ → M (Unit {0})
write_page_to_disk page_id bytes c =
    let offset = page_id * c.page_size in
    (ok tt, record c { file = write_at offset bytes (set_len (offset + c.page_size) c.file) })

-- The first page in iteration order that is neither page 0 nor dirty leaves the cache.
unfoldable pub evict_one : List (ℕ × CachedPage) → List (ℕ × CachedPage)
evict_one [] = []
evict_one ((id, pg) ∷ pages) =
    if not (id == 0) && not pg.dirty then pages else (id, pg) ∷ evict_one pages

unfoldable pub make_room : ℕ → List (ℕ × CachedPage) → List (ℕ × CachedPage)
make_room max_pages pages = if leb max_pages (length pages) then evict_one pages else pages

-- The cache step that `get_page` and `allocate_page` share.
unfoldable pub cache_page : ℕ → CachedPage → PageCache → PageCache
cache_page page_id pg c = record c { pages = insert page_id pg (make_room c.max_pages c.pages) }

abbrev pub clean : ℕ → List ℕ → CachedPage
clean page_id bytes = record { page_id = page_id; bytes = bytes; dirty = false }

abbrev pub load : ℕ → M CachedPage
load page_id = do
  bytes ← read_page_from_disk page_id
  λ c. (ok (clean page_id bytes), cache_page page_id (clean page_id bytes) c)

abbrev pub from_cache : ℕ → Option CachedPage → M CachedPage
from_cache page_id none c = load page_id c
from_cache page_id (some pg) c = (ok pg, c)

unfoldable pub get_page : ℕ → M CachedPage
get_page page_id c = from_cache page_id (lookup page_id c.pages) c

-- A write through the `Arc` that `get_page` returned.
unfoldable pub put_page : ℕ → CachedPage → M (Unit {0})
put_page page_id pg c = (ok tt, record c { pages = insert page_id pg c.pages })

abbrev pub or_invalid : Option DbHeader → M DbHeader
or_invalid none c = (err invalid_file, c)
or_invalid (some h) c = (ok h, c)

unfoldable pub db_header : M DbHeader
db_header = do
  pg ← get_page 0
  or_panic (if ltb (length pg.bytes) db_header_size then none else some tt)
  or_invalid (DbHeader.deserialize_from (take db_header_size pg.bytes))

unfoldable pub update_db_header : DbHeader → M (Unit {0})
update_db_header h = do
  pg ← get_page 0
  buf ← or_panic (DbHeader.serialize_to h (replicate db_header_size 0))
  bytes ← or_panic (copy_from_slice 0 buf pg.bytes)
  put_page 0 (record pg { bytes = bytes; dirty = true })

unfoldable pub next_page_id : M ℕ
next_page_id = do h ← db_header; pure h.page_count

unfoldable pub update_page_count : ℕ → M (Unit {0})
update_page_count new_count = do
  h ← db_header
  update_db_header (record h { page_count = new_count })

-- The bytes of a new page: zeros under a fresh header. A page shorter than a header panics.
unfoldable pub empty_page : ℕ → PageType → ℕ → Option (List ℕ)
empty_page page_size page_type collection_id =
    elim (Format.serialize_to (Format.new page_type collection_id) (replicate page_header_size 0)) [
      | none ↦ none
      | some ph_buf ↦ copy_from_slice 0 ph_buf (replicate page_size 0)
    ]

unfoldable pub allocate_page : PageType → ℕ → M ℕ
allocate_page page_type collection_id = do
  page_size ← λ c. (ok c.page_size, c)
  bytes ← or_panic (empty_page page_size page_type collection_id)
  page_id ← next_page_id
  write_page_to_disk page_id bytes
  λ c. (ok tt, cache_page page_id (clean page_id bytes) c)
  update_page_count (page_id + 1)
  pure page_id
