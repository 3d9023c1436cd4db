-- ===== src/Storage/Cache/Disk.antt =====
-- Pages in the file: what `write_page_to_disk` (page_cache.rs) does to each.
use embeddb.Base.{
  ℕ, ◌+◌, ◌-◌, ◌*◌, ◌≤◌, ◌≡◌, ◌≢◌, refl, ap, sym, ◌∙◌, ◌⊎◌, inl, inr, Option, none, some, List,
  arith, ltb, if◌then◌else◌, length, drop, replicate, le→ltb, Bool-cases, length-append,
  length-replicate, take-append_le, drop-append_le, length-drop, max,
}
use native.Mathlib.Decide.{dec_lt}
use embeddb.Base.Bytes.{slice, write_at, length-write_at, slice-write_at_self, slice-write_at_apart}
use embeddb.Base.Assoc.{nat_key}
use embeddb.Storage.Cache.{PageCache, set_len}
use embeddb.Storage.Cache.Pages.{on_disk}

-- The page `id` of a file of pages of `ps` bytes.
unfoldable pub disk : ℕ → List ℕ → ℕ → Option (List ℕ)
disk ps file id = if ltb (length file) (id * ps + ps) then none else some (slice (id * ps) ps file)

pub on_disk-disk : (c : PageCache) (id : ℕ) → on_disk c id ≡ disk c.page_size c.file id
unfolding on_disk disk
on_disk-disk c id = refl

disk-inside :
    (ps : ℕ) (file : List ℕ) (id : ℕ) {b : List ℕ}
    → disk ps file id ≡ some b
    → (id * ps + ps ≤ length file) × (slice (id * ps) ps file ≡ b)
unfolding disk
disk-inside ps file id h = ground arith

disk_of_inside :
    (ps : ℕ) (file : List ℕ) (id : ℕ) {b : List ℕ}
    → id * ps + ps ≤ length file
    → slice (id * ps) ps file ≡ b
    → disk ps file id ≡ some b
unfolding disk
disk_of_inside ps file id h k = rw (le→ltb (length file) (id * ps + ps) h, k)

length-set_len : (n : ℕ) (file : List ℕ) → length (set_len n file) ≡ max (length file) n
unfolding set_len
length-set_len n file = ground (
  arith,
  length-append file (replicate (n - length file) 0),
  length-replicate {A = ℕ} (n - length file) 0,
)

slice-set_len :
    (n o k : ℕ) (file : List ℕ) → o + k ≤ length file → slice o k (set_len n file) ≡ slice o k file
unfolding set_len
slice-set_len n o k file h = elim (Bool-cases (ltb (length file) n)) [
  | inl short ↦ rw (
    short,
    drop-append_le o file (replicate (n - length file) 0) (omega arith),
    take-append_le k (drop o file) (replicate (n - length file) 0)
        (omega (arith, length-drop o file)),
  )
  | inr long ↦ rw long
]

-- The file behind `write_page_to_disk`.
abbrev pub page_written : ℕ → List ℕ → ℕ → List ℕ → List ℕ
page_written ps file id bytes = write_at (id * ps) bytes (set_len (id * ps + ps) file)

scaled : (ps i j : ℕ) → i ≤ j → i * ps ≤ j * ps
scaled ps i j h = grind arith

pages_apart : (ps i j : ℕ) → i ≢ j → (i * ps + ps ≤ j * ps) ⊎ (j * ps + ps ≤ i * ps)
pages_apart ps i j ne = elim (dec_lt i j) [
  | yes lt ↦ inl (omega (arith, scaled ps (i + 1) j (omega arith)))
  | no ge ↦ inr (omega (arith, scaled ps (j + 1) i (omega arith)))
]

pub disk-write_self :
    (ps : ℕ) (file : List ℕ) (id : ℕ) (bytes : List ℕ)
    → length bytes ≡ ps
    → disk ps (page_written ps file id bytes) id ≡ some bytes
disk-write_self ps file id bytes size =
    disk_of_inside ps (page_written ps file id bytes) id
      (omega (arith, length-write_at (id * ps) bytes (set_len (id * ps + ps) file)))
      (ap (λ n. slice (id * ps) n (page_written ps file id bytes)) (sym size)
        ∙ slice-write_at_self (id * ps) bytes (set_len (id * ps + ps) file))

pub disk-write_ne :
    (ps : ℕ) (file : List ℕ) (id j : ℕ) (bytes : List ℕ) {b : List ℕ}
    → length bytes ≡ ps
    → id ≢ j
    → disk ps file j ≡ some b
    → disk ps (page_written ps file id bytes) j ≡ some b
disk-write_ne ps file id j bytes size ne h =
    let (fits, content) = disk-inside ps file j h in
    disk_of_inside ps (page_written ps file id bytes) j
      (omega (
        arith,
        fits,
        length-write_at (id * ps) bytes (set_len (id * ps + ps) file),
        length-set_len (id * ps + ps) file,
      ))
      (slice-write_at_apart (j * ps) ps (id * ps) bytes (set_len (id * ps + ps) file)
          (apart (pages_apart ps j id (λ e. ne (sym e))))
          (omega (arith, length-set_len (id * ps + ps) file))
        ∙ slice-set_len (id * ps + ps) (j * ps) ps file fits
        ∙ content)
  where
    apart :
        (j * ps + ps ≤ id * ps) ⊎ (id * ps + ps ≤ j * ps)
        → (j * ps + ps ≤ id * ps) ⊎ (id * ps + length bytes ≤ j * ps)
    apart (inl a) = inl a
    apart (inr a) = inr (omega arith)
