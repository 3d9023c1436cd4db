-- ===== src/Storage/Cache/Tests.antt =====
-- Concrete runs of the page cache, and its theorems at concrete inputs.
use embeddb.Base.{
  ◌≤◌, ◌<◌, ◌⊎◌, ℕ, ◌+◌, ◌^◌, ◌≡◌, ◌≢◌, refl, true, false, none, some, List, [], ◌∷◌, ◌++◌, arith,
  length, replicate, length-replicate,
}
use embeddb.Base.Outcome.{ok, panic}
use embeddb.Base.Assoc.{nat_key, lookup}
use embeddb.Storage.Format.{
  PageHeader, read_cell_pointers, read_cell_pointers_raw, decode_cell_pointers, read_page_header,
  deserialize_from,
}
use embeddb.Storage.Format.Laws.{header_bytes}
use embeddb.Storage.Cache.{PageCache, get_page}
use embeddb.Storage.Cache.Write.{write_cell, flush_all, header_after}
use embeddb.Storage.Cache.Pages.{view, on_disk, IsValid}
use embeddb.Storage.Cache.Reads.{bytes_of, read_outcome, get_page-view, SameView}
use embeddb.Storage.Cache.Cells.{IsPage, cells}
use embeddb.Storage.Cache.Appends.{write_cell-append, write_cell-refuses, write_cell-long}
use embeddb.Storage.Cache.Flush.{flush_all-durable}

abbrev fresh : PageHeader
fresh = record {
  page_type = 1;
  collection_id = 0;
  free_space_offset = 1040;
  num_cells = 0;
  crc32 = 0;
  flags = 0;
  pad = 0;
}

-- A file of two pages of 1100 bytes; page 1 is a fresh data page. Nothing is cached.
abbrev cold : PageCache
cold = record {
  page_size = 1100;
  max_pages = 1;
  pages = [];
  file = replicate 1100 0 ++ (header_bytes fresh ++ replicate 1084 0);
}

abbrev page_one : List ℕ
page_one = header_bytes fresh ++ replicate 1084 0

cold-IsValid : IsValid cold
unfolding lookup
cold-IsValid = record { distinct = tt; entry = λ id pg h. cc (h) }

cold_seen : view cold 1 ≡ some page_one
unfolding view on_disk lookup
cold_seen = refl

page_one-IsPage : IsPage 1100 fresh page_one
unfolding read_page_header deserialize_from read_cell_pointers read_cell_pointers_raw
    decode_cell_pointers
page_one-IsPage = record {
  len = refl;
  stored = refl;
  fits = record {
    page_type = omega arith;
    collection_id = omega arith;
    free_space_offset = omega arith;
    num_cells = omega arith;
    crc32 = omega arith;
    flags = omega arith;
    pad = omega arith;
  };
  free_low = omega arith;
  free_high = omega arith;
  cells = omega arith;
  pointers = tt;
}

get_page-view_example :
    (bytes_of (get_page 1 cold).0 ≡ read_outcome (view cold 1))
    × IsValid (get_page 1 cold).1
    × ((get_page 1 cold).1.file ≡ cold.file)
    × ((j : ℕ) → view (get_page 1 cold).1 j ≡ view cold j)
get_page-view_example = get_page-view cold 1 cold-IsValid

abbrev hello : List ℕ
hello = b'h' ∷ b'i' ∷ []

write_cell-append_example :
    let after = (write_cell 1 hello none cold).1 in
    let h' = header_after fresh 2 none in
    ((write_cell 1 hello none cold).0 ≡ ok true)
    × IsValid after
    × (after.file ≡ cold.file)
    × ((j : ℕ) → j ≢ 1 → view after j ≡ view cold j)
    × ((bytes' : List ℕ) × (view after 1 ≡ some bytes')
        × IsPage 1100 h' bytes'
        × (cells h' bytes' ≡ cells fresh page_one ++ (hello ∷ [])))
write_cell-append_example =
    write_cell-append cold 1 fresh page_one hello cold-IsValid (λ e. absurd (omega arith)) cold_seen
      page_one-IsPage (omega arith) (omega arith) (omega arith)

-- The page has 60 bytes left.
abbrev wide : List ℕ
wide = replicate 100 1

write_cell-refuses_example :
    (((256 ≤ fresh.num_cells) ⊎ (1100 < fresh.free_space_offset + length (wide)))
      × ((write_cell 1 (wide) none cold).0 ≡ ok false)
      × SameView cold (write_cell 1 (wide) none cold).1)
    ⊎ ((fresh.num_cells < 256)
        × (fresh.free_space_offset + length (wide) ≤ 1100)
        × ((write_cell 1 (wide) none cold).0 ≡ ok true))
write_cell-refuses_example =
    write_cell-refuses cold 1 fresh page_one (wide) cold-IsValid (λ e. absurd (omega arith))
      cold_seen page_one-IsPage (omega arith) (omega arith)

-- A cell of 65539 bytes, kept shut: it is too long to compute with.
long : List ℕ
long = replicate (2 ^ 16 + 3) 1

length-long : length long ≡ 2 ^ 16 + 3
unfolding long
length-long = length-replicate {A = ℕ} (2 ^ 16 + 3) 1

write_cell-long_example : (write_cell 1 long none cold).0 ≡ panic
write_cell-long_example =
    write_cell-long cold 1 fresh page_one long cold-IsValid (λ e. absurd (omega arith)) cold_seen
      page_one-IsPage (omega arith) (omega (arith, length-long)) (omega (arith, length-long))

-- The cache after a cell was written to page 1, which is dirty.
abbrev changed : PageCache
changed = (write_cell 1 hello none cold).1

changed-IsValid : IsValid changed
changed-IsValid =
    (write_cell-append cold 1 fresh page_one hello cold-IsValid (λ e. absurd (omega arith))
      cold_seen page_one-IsPage (omega arith) (omega arith) (omega arith)).1

flush_all-durable_example :
    let after = (flush_all changed).1 in
    ((flush_all changed).0 ≡ ok tt)
    × IsValid after
    × ((j : ℕ) (b : List ℕ)
        → view changed j ≡ some b
        → (on_disk after j ≡ some b) × (view after j ≡ some b))
flush_all-durable_example = flush_all-durable changed changed-IsValid
