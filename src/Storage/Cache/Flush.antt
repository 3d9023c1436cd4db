-- ===== src/Storage/Cache/Flush.antt =====
-- Flushing (page_cache.rs): after `flush_all` the file holds every page as callers see it.
use embeddb.Base.{
  ℕ, ◌≡◌, ◌≢◌, refl, ap, sym, subst, ◌∙◌, ◌⊎◌, inl, inr, false, none, some, List, [], ◌∷◌, ◌==◌,
  if◌then◌else◌, length, ==_iff, ==_refl, Option-cases, Bool-cases,
}
use embeddb.Base.Outcome.{ok}
use embeddb.Base.Assoc.{nat_key, lookup, Distinct}
use embeddb.Storage.Cache.{CachedPage, PageCache, write_page_to_disk}
use embeddb.Storage.Cache.Write.{flush_list, flush_all}
use embeddb.Storage.Cache.Disk.{disk, on_disk-disk, page_written, disk-write_self, disk-write_ne}
use embeddb.Storage.Cache.Pages.{on_disk, view, IsValid, view-cached, view-uncached}

-- The file behind a flush of the listed pages.
flushed : ℕ → List (ℕ × CachedPage) → List ℕ → List ℕ
flushed ps [] file = file
flushed ps ((id, pg) ∷ m) file =
    flushed ps m (if pg.dirty then page_written ps file id pg.bytes else file)

flush_list-flushed :
    (m : List (ℕ × CachedPage)) (c : PageCache)
    → flush_list m c ≡ (ok tt, record c { file = flushed c.page_size m c.file })
unfolding flush_list flushed write_page_to_disk
flush_list-flushed [] c = refl
flush_list-flushed ((id, pg) ∷ m) c = elim (Bool-cases pg.dirty) [
  | inl modified ↦
      rw modified
        (flush_list-flushed m (record c { file = page_written c.page_size c.file id pg.bytes }))
  | inr clean ↦ rw clean (flush_list-flushed m c)
]

-- What page `j` is, to be found in the file or among the pages still to be flushed.
abbrev Pending : ℕ → List (ℕ × CachedPage) → List ℕ → ℕ → List ℕ → Type 0
Pending ps m file j b =
    ((pg : CachedPage) × (lookup j m ≡ some pg)
      × (pg.bytes ≡ b)
      × (pg.dirty ≡ false → disk ps file j ≡ some b))
    ⊎ ((lookup j m ≡ none) × (disk ps file j ≡ some b))

Sized : ℕ → List (ℕ × CachedPage) → Type 0
Sized ps m = (id : ℕ) (pg : CachedPage) → lookup id m ≡ some pg → length pg.bytes ≡ ps

Sized-tail :
    (ps id : ℕ) (pg : CachedPage) (m : List (ℕ × CachedPage))
    → lookup id m ≡ none
    → Sized ps ((id, pg) ∷ m)
    → Sized ps m
unfolding Sized lookup
Sized-tail ps id pg m fresh s j q h = elim (Bool-cases (id == j)) [
  | inl same ↦ cc (h, subst (λ i. lookup i m ≡ none) ((==_iff id j).0 same) fresh)
  | inr other ↦ s j q (rw other h)
]

kept :
    (ps id j : ℕ) (pg : CachedPage) (file b : List ℕ)
    → length pg.bytes ≡ ps
    → id ≢ j
    → disk ps file j ≡ some b
    → disk ps (if pg.dirty then page_written ps file id pg.bytes else file) j ≡ some b
kept ps id j pg file b size ne h = elim (Bool-cases pg.dirty) [
  | inl modified ↦ rw modified (disk-write_ne ps file id j pg.bytes size ne h)
  | inr clean ↦ rw clean h
]

synced_now :
    (ps id : ℕ) (pg : CachedPage) (file : List ℕ)
    → length pg.bytes ≡ ps
    → (pg.dirty ≡ false → disk ps file id ≡ some pg.bytes)
    → disk ps (if pg.dirty then page_written ps file id pg.bytes else file) id ≡ some pg.bytes
synced_now ps id pg file size sync = elim (Bool-cases pg.dirty) [
  | inl modified ↦ rw modified (disk-write_self ps file id pg.bytes size)
  | inr clean ↦ rw clean (sync clean)
]

step_head :
    (ps id : ℕ) (pg : CachedPage) (m : List (ℕ × CachedPage)) (file : List ℕ) (j : ℕ) (b : List ℕ)
    → lookup id m ≡ none
    → length pg.bytes ≡ ps
    → Pending ps ((id, pg) ∷ m) file j b
    → Pending ps m (if pg.dirty then page_written ps file id pg.bytes else file) j b
unfolding lookup
step_head ps id pg m file j b fresh size p = elim (Bool-cases (id == j)) [
  | inl same ↦ here ((==_iff id j).0 same) p
  | inr other ↦ there other (λ e. cc (other, (==_iff id j).1 e)) p
]
  where
    file' : List ℕ
    file' = if pg.dirty then page_written ps file id pg.bytes else file

    here : id ≡ j → Pending ps ((id, pg) ∷ m) file j b → Pending ps m file' j b
    here e (inl (q, h, content, sync)) =
        let same : pg ≡ q = cc (rw (← e, ==_refl id) at h) in
        let content' : pg.bytes ≡ b = ap (λ (r : CachedPage). r.bytes) same ∙ content in
        inr (
          subst (λ i. lookup i m ≡ none) e fresh,
          subst (λ i. disk ps file' i ≡ some b) e
              (synced_now ps id pg file size (λ clean.
                  subst (λ i. disk ps file i ≡ some pg.bytes) (sym e)
                    (sync (ap (λ (r : CachedPage). r.dirty) (sym same) ∙ clean)
                      ∙ ap some (sym content')))
                ∙ ap some content'),
        )
    here e (inr (h, k)) = cc (rw (← e, ==_refl id) at h)

    there : (id == j) ≡ false → id ≢ j → Pending ps ((id, pg) ∷ m) file j b → Pending ps m file' j b
    there other ne (inl (q, h, content, sync)) =
        inl (q, rw other at h, content, λ clean. kept ps id j pg file b size ne (sync clean))
    there other ne (inr (h, k)) = inr (rw other at h, kept ps id j pg file b size ne k)

flushed-Pending :
    (ps : ℕ) (m : List (ℕ × CachedPage)) (file : List ℕ) (j : ℕ) (b : List ℕ)
    → Distinct m
    → Sized ps m
    → Pending ps m file j b
    → disk ps (flushed ps m file) j ≡ some b
unfolding flushed lookup Sized
flushed-Pending ps [] file j b d s (inl (pg, h, e, k)) = cc (h)
flushed-Pending ps [] file j b d s (inr (_, h)) = h
flushed-Pending ps ((id, pg) ∷ m) file j b (fresh, d) s p =
    flushed-Pending ps m (if pg.dirty then page_written ps file id pg.bytes else file) j b d
      (Sized-tail ps id pg m fresh s)
      (step_head ps id pg m file j b fresh (s id pg (rw (==_refl id) refl)) p)

flush_all-flushed :
    (c : PageCache) → flush_all c ≡ (ok tt, record c { file = flushed c.page_size c.pages c.file })
unfolding flush_all
flush_all-flushed c = flush_list-flushed c.pages c

module _ (c : PageCache) (v : IsValid c) where
  pending : (j : ℕ) {b : List ℕ} → view c j ≡ some b → Pending c.page_size c.pages c.file j b
  pending j {b} h = elim (Option-cases (lookup j c.pages)) [
    | inr (pg, hit) ↦
        let e : pg.bytes ≡ b = cc (h, view-cached c j hit) in
        inl (
          pg,
          hit,
          e,
          λ clean. sym (on_disk-disk c j) ∙ (v.entry j pg hit).synced clean ∙ ap some e,
        )
    | inl miss ↦ inr (miss, sym (on_disk-disk c j) ∙ sym (view-uncached c j miss) ∙ h)
  ]

  durable :
      (j : ℕ) {b : List ℕ}
      → view c j ≡ some b
      → disk c.page_size (flushed c.page_size c.pages c.file) j ≡ some b
  unfolding Sized
  durable j {b} h =
      flushed-Pending c.page_size c.pages c.file j b v.distinct (λ i pg k. (v.entry i pg k).size)
        (pending j h)

  -- Flushing a valid cache succeeds. Every page that callers see is then in the file with the bytes
  -- that they saw, is still seen with those bytes, and the cache stays valid.
  pub flush_all-durable :
      let after = (flush_all c).1 in
      ((flush_all c).0 ≡ ok tt)
      × IsValid after
      × ((j : ℕ) (b : List ℕ)
          → view c j ≡ some b
          → (on_disk after j ≡ some b) × (view after j ≡ some b))
  flush_all-durable = rw (flush_all-flushed c) (
    refl,
    record {
      distinct = v.distinct;
      entry = λ j pg h.
          let e = v.entry j pg h in
          record { filed = e.filed; size = e.size; synced = λ clean. found j (view-cached c j h) };
    },
    λ j b h. (found j h, seen j h),
  )
    where
      after : PageCache
      after = record c { file = flushed c.page_size c.pages c.file }

      found : (j : ℕ) {b : List ℕ} → view c j ≡ some b → on_disk after j ≡ some b
      found j h = on_disk-disk after j ∙ durable j h

      seen : (j : ℕ) {b : List ℕ} → view c j ≡ some b → view after j ≡ some b
      seen j h = elim (Option-cases (lookup j c.pages)) [
        | inr (pg, hit) ↦ view-cached after j hit ∙ sym (view-cached c j hit) ∙ h
        | inl miss ↦ view-uncached after j miss ∙ found j h
      ]
