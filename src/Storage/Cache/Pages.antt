-- ===== src/Storage/Cache/Pages.antt =====
-- What a caller sees of the pages, cached or not (page_cache.rs): reading, evicting and caching a
-- page never change it.
use embeddb.Base.{
  ℕ, ◌+◌, ◌*◌, ◌≡◌, ◌≢◌, refl, sym, subst, ◌∙◌, ◌⊎◌, inl, inr, true, false, not, ◌&&◌, Option, none,
  some, List, [], ◌∷◌, arith, ltb, leb, ◌==◌, drop, if◌then◌else◌, length, length-take, length-drop,
  Bool-cases,
}
use embeddb.Base.Bytes.{slice}
use embeddb.Base.Assoc.{nat_key, lookup, Distinct, lookup-insert, insert-Distinct}
use embeddb.Storage.Cache.{CachedPage, PageCache, evict_one, make_room, cache_page, clean}

-- The page in the file, if the file reaches that far.
unfoldable pub on_disk : PageCache → ℕ → Option (List ℕ)
on_disk c id =
    if ltb (length c.file) (id * c.page_size + c.page_size)
    then none
    else some (slice (id * c.page_size) c.page_size c.file)

abbrev pub page_bytes : Option CachedPage → Option (List ℕ) → Option (List ℕ)
page_bytes none disk = disk
page_bytes (some pg) disk = some pg.bytes

-- The bytes that a caller gets for a page.
unfoldable pub view : PageCache → ℕ → Option (List ℕ)
view c id = page_bytes (lookup id c.pages) (on_disk c id)

-- A cached page is filed under its number, has the page size, and if clean is as on disk.
pub record IsEntry (c : PageCache) (id : ℕ) (pg : CachedPage) : Type 0 where
  pub filed : pg.page_id ≡ id
  pub size : length pg.bytes ≡ c.page_size
  pub synced : pg.dirty ≡ false → on_disk c id ≡ some pg.bytes

pub record IsValid (c : PageCache) : Type 0 where
  pub distinct : Distinct c.pages
  pub entry : (id : ℕ) (pg : CachedPage) → lookup id c.pages ≡ some pg → IsEntry c id pg

-- Eviction takes at most one page away, and that page is clean and not page 0.
pub evict_one-cases :
    (j : ℕ) (m : List (ℕ × CachedPage))
    → Distinct m
    → (lookup j (evict_one m) ≡ lookup j m)
      ⊎ ((lookup j (evict_one m) ≡ none)
          × (j ≢ 0)
          × ((pg : CachedPage) × (lookup j m ≡ some pg) × (pg.dirty ≡ false)))
unfolding lookup evict_one
evict_one-cases j [] d = inl refl
evict_one-cases j ((i, pg) ∷ m) (h, d) = elim (Bool-cases (not (i == 0) && not pg.dirty)) [
  | inl leaves ↦ elim (Bool-cases (i == j)) [
    | inl same ↦
        let e : i ≡ j = ground arith in
        inr (
          rw leaves (rw (← e) h),
          (λ z. cc (not_zero i leaves (e ∙ z))),
          (pg, rw same refl, ground arith),
        )
    | inr other ↦ inl (rw (leaves, other) refl)
  ]
  | inr stays ↦ elim (Bool-cases (i == j)) [
    | inl same ↦ inl (rw (stays, same) refl)
    | inr other ↦ rw (stays, other) (evict_one-cases j m d)
  ]
]
  where
    not_zero : (i : ℕ) → (not (i == 0) && not pg.dirty) ≡ true → i ≡ 0 → false ≡ true
    not_zero i h z = ground arith

evict_one-Distinct : (m : List (ℕ × CachedPage)) → Distinct m → Distinct (evict_one m)
unfolding evict_one
evict_one-Distinct [] d = tt
evict_one-Distinct ((i, pg) ∷ m) (h, d) =
    ground (arith, evict_one-Distinct m d, evict_one-cases i m d)

-- `insert` of a fresh page behind an eviction, seen through `lookup`.
make_room-cases :
    (j cap : ℕ) (m : List (ℕ × CachedPage))
    → Distinct m
    → (lookup j (make_room cap m) ≡ lookup j m)
      ⊎ ((lookup j (make_room cap m) ≡ none)
          × (j ≢ 0)
          × ((pg : CachedPage) × (lookup j m ≡ some pg) × (pg.dirty ≡ false)))
unfolding make_room
make_room-cases j cap m d = elim (Bool-cases (leb cap (length m))) [
  | inl full ↦ rw full (evict_one-cases j m d)
  | inr space ↦ rw space (inl refl)
]

make_room-Distinct : (cap : ℕ) (m : List (ℕ × CachedPage)) → Distinct m → Distinct (make_room cap m)
unfolding make_room
make_room-Distinct cap m d = ground (arith, evict_one-Distinct m d)

pub on_disk-size :
    (c : PageCache) (id : ℕ) {bytes : List ℕ}
    → on_disk c id ≡ some bytes
    → length bytes ≡ c.page_size
unfolding on_disk
on_disk-size c id h = ground (
  arith,
  length-take c.page_size (drop (id * c.page_size) c.file),
  length-drop (id * c.page_size) c.file,
)

-- The cached map after `cache_page`, at each page.
cached-cases :
    (c : PageCache) (id j : ℕ) (pg : CachedPage)
    → IsValid c
    → (id ≡ j) × (lookup j (cache_page id pg c).pages ≡ some pg)
      ⊎ (id ≢ j) × (lookup j (cache_page id pg c).pages ≡ lookup j c.pages)
      ⊎ (id ≢ j)
        × (j ≢ 0)
        × (lookup j (cache_page id pg c).pages ≡ none)
        × ((old : CachedPage) × (lookup j c.pages ≡ some old) × (old.dirty ≡ false))
unfolding cache_page
cached-cases c id j pg v =
    let found = lookup-insert id j pg (make_room c.max_pages c.pages) in
    elim (Bool-cases (id == j)) [
      | inl same ↦ inl (ground arith, found ∙ rw same)
      | inr other ↦
          let ne : id ≢ j = λ e. ground arith in
          elim (make_room-cases j c.max_pages c.pages v.distinct) [
            | inl kept ↦ inr (inl (ne, found ∙ rw other kept))
            | inr (gone, nz, (old, was, unmodified)) ↦
                inr (inr (ne, nz, found ∙ rw other gone, (old, was, unmodified)))
          ]
    ]

pub view-cached :
    (c : PageCache) (id : ℕ) {pg : CachedPage}
    → lookup id c.pages ≡ some pg
    → view c id ≡ some pg.bytes
unfolding view
view-cached c id h = rw h

pub view-uncached : (c : PageCache) (id : ℕ) → lookup id c.pages ≡ none → view c id ≡ on_disk c id
unfolding view
view-uncached c id h = rw h

on_disk-cache_page :
    (c : PageCache) (id j : ℕ) (pg : CachedPage) → on_disk (cache_page id pg c) j ≡ on_disk c j
unfolding on_disk cache_page
on_disk-cache_page c id j pg = refl

IsEntry-cache_page :
    (c : PageCache) (id : ℕ) (q : CachedPage) (j : ℕ) (pg : CachedPage)
    → IsEntry c j pg
    → IsEntry (cache_page id q c) j pg
unfolding on_disk cache_page
IsEntry-cache_page c id q j pg e = record { filed = e.filed; size = e.size; synced = e.synced }

module _ (c : PageCache) (id : ℕ) (bytes : List ℕ) (v : IsValid c)
    (absent : lookup id c.pages ≡ none) (disk : on_disk c id ≡ some bytes) where
  pub cache_page-view : (j : ℕ) → view (cache_page id (clean id bytes) c) j ≡ view c j
  cache_page-view j = elim (cached-cases c id j (clean id bytes) v) [
    | inl (same, found) ↦
        view-cached (cache_page id (clean id bytes) c) j found
        ∙ sym (subst (λ i. view c i ≡ some bytes) same (view-uncached c id absent ∙ disk))
    | inr (inl (ne, found)) ↦ unfold view in rw (found, on_disk-cache_page) refl
    | inr (inr (ne, nz, gone, (old, was, unmodified))) ↦
        view-uncached (cache_page id (clean id bytes) c) j gone
        ∙ on_disk-cache_page c id j (clean id bytes)
        ∙ (v.entry j old was).synced unmodified
        ∙ sym (view-cached c j was)
  ]

  fresh : IsEntry (cache_page id (clean id bytes) c) id (clean id bytes)
  fresh =
      IsEntry-cache_page c id (clean id bytes) id (clean id bytes)
        (record { filed = refl; size = on_disk-size c id disk; synced = λ _. disk })

  pub cache_page-IsValid : IsValid (cache_page id (clean id bytes) c)
  cache_page-IsValid = record {
    distinct =
        unfold cache_page in
        insert-Distinct id (clean id bytes) (make_room c.max_pages c.pages)
          (make_room-Distinct c.max_pages c.pages v.distinct);
    entry = λ j pg h. elim (cached-cases c id j (clean id bytes) v) [
      | inl (same, found) ↦
          subst (IsEntry (cache_page id (clean id bytes) c) j) (cc (h, found))
            (subst (λ i. IsEntry (cache_page id (clean id bytes) c) i (clean id bytes)) same fresh)
      | inr (inl (ne, found)) ↦
          IsEntry-cache_page c id (clean id bytes) j pg (v.entry j pg (sym found ∙ h))
      | inr (inr (ne, nz, gone, (old, was, unmodified))) ↦ cc (h, gone)
    ];
  }
