-- ===== src/Storage/Cache/Appends.antt =====
-- `write_cell` of page_cache.rs on the whole cache: appending a cell, refusing one, and the cells
-- too long for their u16 length.
use embeddb.Base.{
  le→leb, ℕ, ◌+◌, ◌%◌, ◌^◌, ◌≤◌, ◌<◌, ◌≡◌, ◌≢◌, refl, ap, sym, ◌∙◌, ◌⊎◌, inl, inr, true, false,
  none, some, List, [], ◌∷◌, ◌++◌, arith, leb, if◌then◌else◌, length, ==_refl, ==_ne, lt→leb,
  Bool-cases,
}
use embeddb.Base.Outcome.{ok, panic}
use embeddb.Storage.Format.{PageHeader, has_room, read_page_header}
use embeddb.Storage.Cache.{CachedPage, PageCache, put_page, header}
use embeddb.Storage.Cache.Write.{write_cell, write_cell_bytes, header_after, copy_range-differs}
use embeddb.Storage.Cache.Pages.{view, IsValid}
use embeddb.Storage.Cache.Reads.{
  SameView, Got, get_page-ok, put_page-returns, put_page-view, put_page-IsValid,
}
use embeddb.Storage.Cache.Cells.{
  IsPage, cells, written, length-written, write_cell_bytes-written, written-IsPage,
  cells_after_append,
}

-- The header of a page that is not page 0.
header-stored :
    (pg : CachedPage) {h : PageHeader}
    → pg.page_id ≢ 0
    → read_page_header pg.bytes ≡ some h
    → header pg ≡ some h
unfolding header
header-stored pg nz e = ground arith

has_room-holds :
    (h : PageHeader) (page_size needed : ℕ)
    → h.num_cells < 256
    → h.free_space_offset + needed ≤ page_size
    → has_room h page_size needed ≡ true
unfolding has_room
has_room-holds h page_size needed space room = ground arith

has_room-fits :
    (h : PageHeader) (page_size len : ℕ)
    → h.num_cells < 256
    → page_size < 2 ^ 16
    → h.free_space_offset + len ≤ page_size
    → has_room h page_size (len % 2 ^ 16) ≡ true
has_room-fits h page_size len space small room =
    has_room-holds h page_size (len % 2 ^ 16) space (omega arith)

has_room-fails :
    (h : PageHeader) (page_size len : ℕ)
    → len < 2 ^ 16
    → page_size < h.free_space_offset + len
    → has_room h page_size (len % 2 ^ 16) ≡ false
unfolding has_room
has_room-fails h page_size len short long = ground arith

fits_or_not :
    (h : PageHeader) (page_size len : ℕ)
    → ((256 ≤ h.num_cells) ⊎ (page_size < h.free_space_offset + len))
      ⊎ ((h.num_cells < 256) × (h.free_space_offset + len ≤ page_size))
fits_or_not h page_size len = ground arith

write_cell_bytes-long :
    (h : PageHeader) (bytes cell : List ℕ)
    → 2 ^ 16 ≤ length cell
    → write_cell_bytes h bytes cell none ≡ none
unfolding write_cell_bytes
write_cell_bytes-long h bytes cell long =
    rw
      (copy_range-differs h.free_space_offset (h.free_space_offset + length cell % 2 ^ 16) cell
        bytes (λ e. absurd (omega arith)))
      (elim (Bool-cases (leb (2 ^ 16) (h.free_space_offset + length cell % 2 ^ 16))) [
        | inl over ↦ rw over
        | inr fine ↦ rw fine
      ])

module _ (c : PageCache) (id : ℕ) (h : PageHeader) (bytes cell : List ℕ) (v : IsValid c)
    (nz : id ≢ 0) (seen : view c id ≡ some bytes) (page : IsPage c.page_size h bytes) where
  got : Got c id bytes
  got = get_page-ok c id v seen

  got-header : header got.page ≡ some h
  got-header =
      header-stored got.page (λ z. nz (sym got.filed ∙ z))
        (ap read_page_header got.bytes_lem ∙ page.stored)

  -- After the page is fetched: what is left of `write_cell`.
  write_cell-refused :
      (leb 256 h.num_cells ≡ true) ⊎ (has_room h c.page_size (length cell % 2 ^ 16) ≡ false)
      → write_cell id cell none c ≡ (ok false, got.cache)
  unfolding write_cell
  write_cell-refused (inl full) = rw (got.got, got-header, got.same.page_size, full)
  write_cell-refused (inr no_room) = elim (Bool-cases (leb 256 h.num_cells)) [
    | inl full ↦ rw (got.got, got-header, got.same.page_size, full)
    | inr space ↦ rw (got.got, got-header, got.same.page_size, space, no_room)
  ]

  abbrev new_page : CachedPage
  new_page = record got.page { bytes = written h bytes cell; dirty = true }

  write_cell-accepted :
      c.page_size < 2 ^ 16
      → h.num_cells < 256
      → h.free_space_offset + length cell ≤ c.page_size
      → write_cell id cell none c ≡ (ok true, (put_page id new_page got.cache).1)
  unfolding write_cell
  write_cell-accepted small space room = rw (
    got.got,
    got-header,
    got.same.page_size,
    lt→leb 256 h.num_cells space,
    has_room-fits h c.page_size (length cell) space small room,
    got.bytes_lem,
    write_cell_bytes-written h bytes cell page small space room,
    put_page-returns got.cache id new_page,
  )

  -- A cell of 64 KB or more passes the room check by the low sixteen bits of its length: on a page
  -- with a free slot and room for that many bytes the call does not return false, it panics.
  pub write_cell-long :
      h.num_cells < 256
      → 2 ^ 16 ≤ length cell
      → h.free_space_offset + length cell % 2 ^ 16 ≤ c.page_size
      → (write_cell id cell none c).0 ≡ panic
  unfolding write_cell
  write_cell-long space long room = rw (
    got.got,
    got-header,
    got.same.page_size,
    lt→leb 256 h.num_cells space,
    has_room-holds h c.page_size (length cell % 2 ^ 16) space room,
    write_cell_bytes-long h got.page.bytes cell long,
  )

  -- What `write_cell` without an index answers on a data page other than page 0, by the numbers of its
  -- header, for a page and a cell below 64 KB: with 256 cells or without room for the cell's bytes it
  -- returns false and leaves the file and what is seen of every page; otherwise it returns true.
  pub write_cell-refuses :
      c.page_size < 2 ^ 16
      → length cell < 2 ^ 16
      → (((256 ≤ h.num_cells) ⊎ (c.page_size < h.free_space_offset + length cell))
          × ((write_cell id cell none c).0 ≡ ok false)
          × SameView c (write_cell id cell none c).1)
        ⊎ ((h.num_cells < 256)
            × (h.free_space_offset + length cell ≤ c.page_size)
            × ((write_cell id cell none c).0 ≡ ok true))
  write_cell-refuses small short = elim (fits_or_not h c.page_size (length cell)) [
    | inl (inl full) ↦
        let r = refusal (inl (le→leb 256 h.num_cells full)) in inl (inl full, r.0, r.1)
    | inl (inr long) ↦
        let r = refusal (inr (has_room-fails h c.page_size (length cell) short long)) in
        inl (inr long, r.0, r.1)
    | inr (space, room) ↦ inr (space, room, ap (λ r. r.0) (write_cell-accepted small space room))
  ]
    where
      refusal :
          (leb 256 h.num_cells ≡ true) ⊎ (has_room h c.page_size (length cell % 2 ^ 16) ≡ false)
          → ((write_cell id cell none c).0 ≡ ok false) × SameView c (write_cell id cell none c).1
      refusal r = rw (write_cell-refused r) (refl, got.same)

  -- A data page is seen as its list of cells, and `write_cell` without an index appends to it. On a
  -- page other than page 0, below 64 KB, with fewer than 256 cells and room for the cell's bytes the call returns true;
  -- the page is then seen as a well-formed page whose cells are the old ones followed by the new
  -- one; every other page is seen as before, the file is not written, and the cache stays valid.
  pub write_cell-append :
      c.page_size < 2 ^ 16
      → h.num_cells < 256
      → h.free_space_offset + length cell ≤ c.page_size
      → let after = (write_cell id cell none c).1 in
        let h' = header_after h (length cell) none in
        ((write_cell id cell none c).0 ≡ ok true)
        × IsValid after
        × (after.file ≡ c.file)
        × ((j : ℕ) → j ≢ id → view after j ≡ view c j)
        × ((bytes' : List ℕ) × (view after id ≡ some bytes')
            × IsPage c.page_size h' bytes'
            × (cells h' bytes' ≡ cells h bytes ++ (cell ∷ [])))
  write_cell-append small space room = rw (write_cell-accepted small space room) (
    refl,
    put_page-IsValid got.cache id new_page got.same.valid got.filed
        (length-written h bytes cell page small space room ∙ sym got.same.page_size) refl,
    unfold put_page in got.same.file,
    λ j ne.
        put_page-view got.cache id j new_page
        ∙ ap (λ b. if b then some (written h bytes cell) else view got.cache j)
            (==_ne id j (λ e. ne (sym e)))
        ∙ got.same.views j,
    (
      written h bytes cell,
      put_page-view got.cache id id new_page
          ∙ ap (λ b. if b then some (written h bytes cell) else view got.cache id) (==_refl id),
      written-IsPage h bytes cell page small space room,
      cells_after_append h bytes cell page small space room,
    ),
  )
