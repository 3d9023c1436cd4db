-- ===== src/Storage/Encoding.antt =====
-- crates/vexra-storage/src/encoding.rs: numbers read from and written to a byte buffer. `none` of
-- a writer is the panic of a slice out of range; `none` of a reader is the source's `None`.
use embeddb.Base.{
  ℕ, ◌+◌, ◌*◌, ◌/◌, ◌^◌, ◌≤◌, ◌<◌, ◌≡◌, ap, ◌∙◌, sym, ◌⊎◌, Option, none, some, List, arith, ltb,
  length, if◌then◌else◌, le→ltb,
}
use embeddb.Base.Bytes.{
  slice, write_at, to_le, from_le, length-to_le, from_le-to_le, length-write_at,
  slice-write_at_self, slice-write_at_apart,
}

-- `buf[off..off + src.len()].copy_from_slice(src)`, which panics out of range.
unfoldable pub copy_from_slice : ℕ → List ℕ → List ℕ → Option (List ℕ)
copy_from_slice off src buf =
    if ltb (length buf) (off + length src) then none else some (write_at off src buf)

unfoldable pub write_u32_le : List ℕ → ℕ → ℕ → Option (List ℕ)
write_u32_le buf offset value = copy_from_slice offset (to_le 4 value) buf

unfoldable pub read_u32_le : List ℕ → ℕ → Option ℕ
read_u32_le buf offset =
    if ltb (length buf) (offset + 4) then none else some (from_le (slice offset 4 buf))

unfoldable pub write_u64_le : List ℕ → ℕ → ℕ → Option (List ℕ)
write_u64_le buf offset value = copy_from_slice offset (to_le 8 value) buf

unfoldable pub read_u64_le : List ℕ → ℕ → Option ℕ
read_u64_le buf offset =
    if ltb (length buf) (offset + 8) then none else some (from_le (slice offset 8 buf))

unfoldable pub f32_count_from_bytes : ℕ → ℕ
f32_count_from_bytes available = available / 4

unfoldable pub bytes_for_f32 : ℕ → ℕ
bytes_for_f32 count = count * 4

-- The bytes of a copy that does not panic.
pub copy-eq-some :
    (off : ℕ) (src buf : List ℕ) {out : List ℕ}
    → copy_from_slice off src buf ≡ some out
    → (out ≡ write_at off src buf) × (off + length src ≤ length buf) × (length out ≡ length buf)
unfolding copy_from_slice
copy-eq-some off src buf h = ground (arith, length-write_at off src buf)

-- Reads of `n` bytes that do not meet a copied range.
read_apart :
    (o n off : ℕ) (src buf out : List ℕ)
    → copy_from_slice off src buf ≡ some out
    → (o + n ≤ off) ⊎ (off + length src ≤ o)
    → (if ltb (length out) (o + n) then none else some (from_le (slice o n out)))
      ≡ (if ltb (length buf) (o + n) then none else some (from_le (slice o n buf)))
read_apart o n off src buf out h apart =
    let (e, fits, len) = copy-eq-some off src buf h in
    rw len (
      ap (λ s. if ltb (length buf) (o + n) then none else some (from_le s))
        (ap (slice o n) e ∙ slice-write_at_apart o n off src buf apart fits))

read_back :
    (n off v : ℕ) (buf out : List ℕ)
    → v < 256 ^ n
    → copy_from_slice off (to_le n v) buf ≡ some out
    → (if ltb (length out) (off + n) then none else some (from_le (slice off n out))) ≡ some v
read_back n off v buf out hv h =
    let (e, fits, len) = copy-eq-some off (to_le n v) buf h in
    rw (le→ltb (length out) (off + n) (omega (arith, length-to_le n v))) (
      ap some
        (ap (λ s. from_le (slice off n s)) e ∙ read (length-to_le n v) ∙ from_le-to_le n v hv))
  where
    read :
        length (to_le n v) ≡ n
        → from_le (slice off n (write_at off (to_le n v) buf)) ≡ from_le (to_le n v)
    read l = ap from_le (
        ap (λ k. slice off k (write_at off (to_le n v) buf)) (sym l)
        ∙ slice-write_at_self off (to_le n v) buf)

-- A u32 below 2^32 written within the buffer is read back at its offset; a u32 or u64 read at any
-- offset whose bytes do not meet the four written ones gives what it gave before; the length stays.
pub read-write_u32 :
    (buf : List ℕ) (off v : ℕ) {out : List ℕ}
    → v < 2 ^ 32
    → write_u32_le buf off v ≡ some out
    → (length out ≡ length buf)
      × (read_u32_le out off ≡ some v)
      × ((o : ℕ) → (o + 4 ≤ off) ⊎ (off + 4 ≤ o) → read_u32_le out o ≡ read_u32_le buf o)
      × ((o : ℕ) → (o + 8 ≤ off) ⊎ (off + 4 ≤ o) → read_u64_le out o ≡ read_u64_le buf o)
unfolding write_u32_le read_u32_le read_u64_le
read-write_u32 buf off v {out} hv h = (
  (copy-eq-some off (to_le 4 v) buf h).2,
  read_back 4 off v buf out hv h,
  λ o. read_apart o 4 off (to_le 4 v) buf out h,
  λ o. read_apart o 8 off (to_le 4 v) buf out h,
)

-- The same for a u64 below 2^64 and its eight bytes.
pub read-write_u64 :
    (buf : List ℕ) (off v : ℕ) {out : List ℕ}
    → v < 2 ^ 64
    → write_u64_le buf off v ≡ some out
    → (length out ≡ length buf)
      × (read_u64_le out off ≡ some v)
      × ((o : ℕ) → (o + 8 ≤ off) ⊎ (off + 8 ≤ o) → read_u64_le out o ≡ read_u64_le buf o)
      × ((o : ℕ) → (o + 4 ≤ off) ⊎ (off + 8 ≤ o) → read_u32_le out o ≡ read_u32_le buf o)
unfolding write_u64_le read_u32_le read_u64_le
read-write_u64 buf off v {out} hv h = (
  (copy-eq-some off (to_le 8 v) buf h).2,
  read_back 8 off v buf out hv h,
  λ o. read_apart o 8 off (to_le 8 v) buf out h,
  λ o. read_apart o 4 off (to_le 8 v) buf out h,
)
