-- ===== src/Storage/Cache/Reads.antt =====
-- Reading and writing whole pages through the cache (page_cache.rs), as every caller sees them.
use embeddb.Base.{
  ℕ, ◌≡◌, refl, ap, sym, subst, ◌∙◌, inl, inr, true, Option, none, some, List, arith, ◌==◌,
  if◌then◌else◌, length, ==_iff, Option-cases, Bool-cases,
}
use embeddb.Base.Outcome.{Outcome, ok, err, panic}
use embeddb.Base.Assoc.{nat_key, lookup, lookup-insert, insert-Distinct}
use embeddb.Storage.Error.{StorageError, io}
use embeddb.Storage.Cache.{
  CachedPage, PageCache, cache_page, get_page, put_page, read_page_from_disk, clean,
}
use embeddb.Storage.Cache.Pages.{
  on_disk, view, IsEntry, IsValid, view-cached, view-uncached, cache_page-view, cache_page-IsValid,
}

abbrev pub bytes_of : Outcome StorageError CachedPage → Outcome StorageError (List ℕ)
bytes_of (ok pg) = ok pg.bytes
bytes_of (err e) = err e
bytes_of panic = panic

-- What reading a page should give: its bytes, or the I/O error of a read behind the file's end.
abbrev pub read_outcome : Option (List ℕ) → Outcome StorageError (List ℕ)
read_outcome none = err io
read_outcome (some bytes) = ok bytes

read-on_disk :
    (c : PageCache) (id : ℕ) → read_page_from_disk id c ≡ (read_outcome (on_disk c id), c)
unfolding read_page_from_disk on_disk
read-on_disk c id = ground arith

pub get_page-hit :
    (c : PageCache) (id : ℕ) {pg : CachedPage}
    → lookup id c.pages ≡ some pg
    → get_page id c ≡ (ok pg, c)
unfolding get_page
get_page-hit c id h = rw h

get_page-short :
    (c : PageCache) (id : ℕ)
    → lookup id c.pages ≡ none
    → on_disk c id ≡ none
    → get_page id c ≡ (err io, c)
unfolding get_page
get_page-short c id h k = rw (h, read-on_disk c id, k)

pub get_page-load :
    (c : PageCache) (id : ℕ) {bytes : List ℕ}
    → lookup id c.pages ≡ none
    → on_disk c id ≡ some bytes
    → get_page id c ≡ (ok (clean id bytes), cache_page id (clean id bytes) c)
unfolding get_page
get_page-load c id h k = rw (h, read-on_disk c id, k)

-- In a valid cache `get_page` answers with the page's bytes as any caller sees them, cached or on
-- disk, or with an I/O error if the page is in neither; whatever it loads and evicts, the cache
-- stays valid, the file stays, and every page, this one and all others, is seen as before.
pub get_page-view :
    (c : PageCache) (id : ℕ)
    → IsValid c
    → (bytes_of (get_page id c).0 ≡ read_outcome (view c id))
      × IsValid (get_page id c).1
      × ((get_page id c).1.file ≡ c.file)
      × ((j : ℕ) → view (get_page id c).1 j ≡ view c j)
get_page-view c id v = elim (Option-cases (lookup id c.pages)) [
  | inr (pg, hit) ↦
      rw (get_page-hit c id hit) (sym (ap read_outcome (view-cached c id hit)), v, refl, λ j. refl)
  | inl miss ↦ elim (Option-cases (on_disk c id)) [
    | inl short ↦
        rw (get_page-short c id miss short)
          (sym (ap read_outcome (view-uncached c id miss ∙ short)), v, refl, λ j. refl)
    | inr (bytes, disk) ↦ rw (get_page-load c id miss disk) (
      sym (ap read_outcome (view-uncached c id miss ∙ disk)),
      cache_page-IsValid c id bytes v miss disk,
      unfold cache_page in refl,
      cache_page-view c id bytes v miss disk,
    )
  ]
]

-- Two valid caches over one file that show the same pages.
pub record SameView (c d : PageCache) : Type 0 where
  pub valid : IsValid d
  pub file : d.file ≡ c.file
  pub page_size : d.page_size ≡ c.page_size
  pub views : (j : ℕ) → view d j ≡ view c j

-- A page that a caller sees is handed out under its number.
pub record Got (c : PageCache) (id : ℕ) (bytes : List ℕ) : Type 0 where
  pub page : CachedPage
  pub cache : PageCache
  pub got : get_page id c ≡ (ok page, cache)
  pub bytes_lem : page.bytes ≡ bytes
  pub filed : page.page_id ≡ id
  pub same : SameView c cache

pub get_page-ok :
    (c : PageCache) (id : ℕ) {bytes : List ℕ} → IsValid c → view c id ≡ some bytes → Got c id bytes
get_page-ok c id {bytes} v h = elim (Option-cases (lookup id c.pages)) [
  | inr (pg, hit) ↦ record {
    page = pg;
    cache = c;
    got = get_page-hit c id hit;
    bytes_lem = cc (h, view-cached c id hit);
    filed = (v.entry id pg hit).filed;
    same = record { valid = v; file = refl; page_size = refl; views = λ j. refl };
  }
  | inl miss ↦
      let disk : on_disk c id ≡ some bytes = sym (view-uncached c id miss) ∙ h in
      record {
        page = clean id bytes;
        cache = cache_page id (clean id bytes) c;
        got = get_page-load c id miss disk;
        bytes_lem = refl;
        filed = refl;
        same = record {
          valid = cache_page-IsValid c id bytes v miss disk;
          file = unfold cache_page in refl;
          page_size = unfold cache_page in refl;
          views = cache_page-view c id bytes v miss disk;
        };
      }
]

pub put_page-returns :
    (c : PageCache) (id : ℕ) (pg : CachedPage) → put_page id pg c ≡ (ok tt, (put_page id pg c).1)
unfolding put_page
put_page-returns c id pg = refl

-- A write through a page changes what is seen of that page, and of no other.
pub put_page-view :
    (c : PageCache) (id j : ℕ) (pg : CachedPage)
    → view (put_page id pg c).1 j ≡ (if id == j then some pg.bytes else view c j)
unfolding put_page view on_disk
put_page-view c id j pg =
    rw (lookup-insert id j pg c.pages)
      (elim (Bool-cases (id == j)) [ inl same ↦ rw same | inr other ↦ rw other ])

pub put_page-IsValid :
    (c : PageCache) (id : ℕ) (pg : CachedPage)
    → IsValid c
    → pg.page_id ≡ id
    → length pg.bytes ≡ c.page_size
    → pg.dirty ≡ true
    → IsValid (put_page id pg c).1
unfolding put_page on_disk
put_page-IsValid c id pg v filed size modified = record {
  distinct = insert-Distinct id pg c.pages v.distinct;
  entry = λ j q h. elim (Bool-cases (id == j)) [
    | inl same ↦
        let e : pg ≡ q = cc (h, lookup-insert id j pg c.pages, same) in
        subst (IsEntry (put_page id pg c).1 j) e (
          subst (λ i. IsEntry (put_page id pg c).1 i pg) ((==_iff id j).0 same)
            (record { filed = filed; size = size; synced = λ k. cc (k, modified) }))
    | inr other ↦
        let was : lookup j c.pages ≡ some q = cc (h, lookup-insert id j pg c.pages, other) in
        let old = v.entry j q was in
        record { filed = old.filed; size = old.size; synced = old.synced }
  ];
}
