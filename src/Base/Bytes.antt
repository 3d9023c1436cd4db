-- ===== src/Base/Bytes.antt =====
-- Byte buffers and files as lists of numbers, and little-endian numbers.
use Prim.Native.Nat.{ℕ, zero, suc, ◌+◌, ◌-◌, ◌*◌, ◌/◌, ◌%◌, ◌^◌, ◌≤◌, ◌<◌, max}
use mathlib.Core.Path.{◌≡◌, refl, sym, ap, ◌∙◌}
use mathlib.Core.Logic.{◌⊎◌, inl, inr}
use mathlib.Core.List.{List, [], ◌∷◌, ◌++◌}
use native.Mathlib.Omega.{arith}
use native.Mathlib.Nat.{pow-suc}
use embeddb.Base.Lists.{
  length, take, drop, length-append, length-drop, take-append, take-append_le, drop-append,
  drop-append_le, drop-drop, drop-nil,
}

-- `buf[off..off + n]`, cut off at the end of the buffer.
abbrev pub slice {ℓ} : {A : Type ℓ} → ℕ → ℕ → List A → List A
slice off n xs = take n (drop off xs)

-- The bytes `src` written at offset `off`. Within the buffer this is `copy_from_slice`; a file
-- grows, and a gap before `off` reads as zeros.
unfoldable pub write_at : ℕ → List ℕ → List ℕ → List ℕ
write_at zero src xs = src ++ drop (length src) xs
write_at (suc off) src [] = 0 ∷ write_at off src []
write_at (suc off) src (x ∷ xs) = x ∷ write_at off src xs

pub length-write_at :
    (off : ℕ) (src xs : List ℕ) → length (write_at off src xs) ≡ max (length xs) (off + length src)
unfolding write_at
length-write_at zero src xs =
    omega (arith, length-append src (drop (length src) xs), length-drop (length src) xs)
length-write_at (suc off) src [] = omega (arith, length-write_at off src [])
length-write_at (suc off) src (x ∷ xs) = omega (arith, length-write_at off src xs)

pub slice-write_at_self :
    (off : ℕ) (src xs : List ℕ) → slice off (length src) (write_at off src xs) ≡ src
unfolding write_at
slice-write_at_self zero src xs = take-append src _
slice-write_at_self (suc off) src [] = slice-write_at_self off src []
slice-write_at_self (suc off) src (x ∷ xs) = slice-write_at_self off src xs

pub slice-write_at_before :
    (o n off : ℕ) (src xs : List ℕ)
    → o + n ≤ off
    → o + n ≤ length xs
    → slice o n (write_at off src xs) ≡ slice o n xs
unfolding write_at
slice-write_at_before zero zero off src xs h k = refl
slice-write_at_before (suc o) n zero src xs h k = absurd (omega arith)
slice-write_at_before (suc o) n (suc off) src [] h k = absurd (omega arith)
slice-write_at_before (suc o) n (suc off) src (x ∷ xs) h k =
    slice-write_at_before o n off src xs (omega arith) (omega arith)
slice-write_at_before zero (suc n) zero src xs h k = absurd (omega arith)
slice-write_at_before zero (suc n) (suc off) src [] h k = absurd (omega arith)
slice-write_at_before zero (suc n) (suc off) src (x ∷ xs) h k =
    ap (◌∷◌ x) (slice-write_at_before zero n off src xs (omega arith) (omega arith))

pub drop-write_at_after :
    (o off : ℕ) (src xs : List ℕ) → off + length src ≤ o → drop o (write_at off src xs) ≡ drop o xs
unfolding write_at
drop-write_at_after o zero src xs h =
    drop-append o src _ (omega arith)
    ∙ drop-drop (o - length src) (length src) xs
    ∙ ap (λ k. drop k xs) (omega arith)
drop-write_at_after zero (suc off) src xs h = absurd (omega arith)
drop-write_at_after (suc o) (suc off) src [] h =
    drop-write_at_after o off src [] (omega arith) ∙ drop-nil o
drop-write_at_after (suc o) (suc off) src (x ∷ xs) h =
    drop-write_at_after o off src xs (omega arith)

pub slice-write_at_after :
    (o n off : ℕ) (src xs : List ℕ)
    → off + length src ≤ o
    → slice o n (write_at off src xs) ≡ slice o n xs
slice-write_at_after o n off src xs h = ap (take n) (drop-write_at_after o off src xs h)

write_at-nil_next :
    (a b xs : List ℕ)
    → write_at (length a) b (a ++ drop (length a) xs) ≡ (a ++ b) ++ drop (length (a ++ b)) xs
unfolding write_at
write_at-nil_next [] b xs = refl
write_at-nil_next (y ∷ a) b [] = ap (◌∷◌ y) (
    ap (λ d. write_at (length a) b (a ++ d)) (sym (drop-nil (length a)))
    ∙ write_at-nil_next a b []
    ∙ ap (λ d. (a ++ b) ++ d) (drop-nil (length (a ++ b))))
write_at-nil_next (y ∷ a) b (x ∷ xs) = ap (◌∷◌ y) (write_at-nil_next a b xs)

write_at-write_at_sum :
    (off : ℕ) (a b xs : List ℕ)
    → write_at (off + length a) b (write_at off a xs) ≡ write_at off (a ++ b) xs
unfolding write_at
write_at-write_at_sum zero a b xs =
    ap (λ k. write_at k b (a ++ drop (length a) xs)) {x = 0 + length a} {y = length a} (omega arith)
    ∙ write_at-nil_next a b xs
write_at-write_at_sum (suc off) a b [] =
    ap (λ k. write_at k b (write_at (suc off) a [])) {x = suc off + length a}
      {y = suc (off + length a)} (omega arith)
    ∙ ap (◌∷◌ 0) (write_at-write_at_sum off a b [])
write_at-write_at_sum (suc off) a b (x ∷ xs) =
    ap (λ k. write_at k b (write_at (suc off) a (x ∷ xs))) {x = suc off + length a}
      {y = suc (off + length a)} (omega arith)
    ∙ ap (◌∷◌ x) (write_at-write_at_sum off a b xs)

-- Two writes side by side are one write of the joined bytes.
pub write_at-write_at_next :
    (o off : ℕ) (a b xs : List ℕ)
    → o ≡ off + length a
    → write_at o b (write_at off a xs) ≡ write_at off (a ++ b) xs
write_at-write_at_next o off a b xs h =
    ap (λ k. write_at k b (write_at off a xs)) h ∙ write_at-write_at_sum off a b xs

-- Reading inside what was just written.
pub slice-write_at_inside :
    (o n : ℕ) (src xs : List ℕ) → o + n ≤ length src → slice o n (write_at 0 src xs) ≡ slice o n src
unfolding write_at
slice-write_at_inside o n src xs h =
    ap (take n) (drop-append_le o src _ (omega arith))
    ∙ take-append_le n (drop o src) _ (omega (arith, length-drop o src))

-- `to_le_bytes` of an unsigned integer of `n` bytes.
abbrev pub to_le : ℕ → ℕ → List ℕ
to_le zero v = []
to_le (suc n) v = (v % 256) ∷ to_le n (v / 256)

-- `from_le_bytes`.
abbrev pub from_le : List ℕ → ℕ
from_le [] = 0
from_le (b ∷ bs) = b + 256 * from_le bs

pub length-to_le : (n v : ℕ) → length (to_le n v) ≡ n
length-to_le zero v = refl
length-to_le (suc n) v = ap suc (length-to_le n (v / 256))

pub from_le-to_le : (n v : ℕ) → v < 256 ^ n → from_le (to_le n v) ≡ v
from_le-to_le zero v h = omega arith
from_le-to_le (suc n) v h =
    omega (arith, from_le-to_le n (v / 256) (below (256 ^ n) (rw pow-suc at h)))
  where
    below : (p : ℕ) → v < p * 256 → v / 256 < p
    below p k = omega arith

-- A read that does not meet the written bytes sees the old ones.
pub slice-write_at_apart :
    (o n off : ℕ) (src xs : List ℕ)
    → (o + n ≤ off) ⊎ (off + length src ≤ o)
    → off + length src ≤ length xs
    → slice o n (write_at off src xs) ≡ slice o n xs
slice-write_at_apart o n off src xs (inl h) k = slice-write_at_before o n off src xs h (omega arith)
slice-write_at_apart o n off src xs (inr h) k = slice-write_at_after o n off src xs h

-- A write that covers an earlier one hides it.
pub write_at-write_at_over :
    (a b xs : List ℕ) → length a ≤ length b → write_at 0 b (write_at 0 a xs) ≡ write_at 0 b xs
unfolding write_at
write_at-write_at_over a b xs h =
    ap (λ d. b ++ d)
      (drop-append (length b) a _ h
        ∙ drop-drop (length b - length a) (length a) xs
        ∙ ap (λ k. drop k xs) {x = length a + (length b - length a)} {y = length b} (omega arith))
