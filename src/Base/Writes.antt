-- ===== src/Base/Writes.antt =====
-- How writes into one byte buffer combine: at one place the last one stays, apart they commute.
use Prim.Native.Nat.{ℕ, zero, suc, ◌+◌, ◌≤◌}
use mathlib.Core.Path.{◌≡◌, refl, ap, sym, ◌∙◌}
use mathlib.Core.Logic.{◌⊎◌, inl, inr}
use mathlib.Core.List.{List, [], ◌∷◌, ◌++◌}
use native.Mathlib.Omega.{arith}
use embeddb.Base.Lists.{length, drop-nil}
use embeddb.Base.Bytes.{write_at, write_at-write_at_over}

pub write_at-write_at_same :
    (off : ℕ) (a b xs : List ℕ)
    → length a ≤ length b
    → write_at off b (write_at off a xs) ≡ write_at off b xs
unfolding write_at
write_at-write_at_same zero a b xs h = write_at-write_at_over a b xs h
write_at-write_at_same (suc off) a b [] h = ap (◌∷◌ 0) (write_at-write_at_same off a b [] h)
write_at-write_at_same (suc off) a b (x ∷ xs) h = ap (◌∷◌ x) (write_at-write_at_same off a b xs h)

write_at-write_at_before :
    (o p : ℕ) (a b xs : List ℕ)
    → o + length a ≤ p
    → write_at o a (write_at p b xs) ≡ write_at p b (write_at o a xs)
unfolding write_at
write_at-write_at_before zero p [] b xs h = refl
write_at-write_at_before zero zero (y ∷ a) b xs h = absurd (omega arith)
write_at-write_at_before zero (suc p) (y ∷ a) b [] h = ap (◌∷◌ y) (
    write_at-write_at_before zero p a b [] (omega arith)
    ∙ ap (λ d. write_at p b (a ++ d)) (drop-nil (length a)))
write_at-write_at_before zero (suc p) (y ∷ a) b (x ∷ xs) h =
    ap (◌∷◌ y) (write_at-write_at_before zero p a b xs (omega arith))
write_at-write_at_before (suc o) zero a b xs h = absurd (omega arith)
write_at-write_at_before (suc o) (suc p) a b [] h =
    ap (◌∷◌ 0) (write_at-write_at_before o p a b [] (omega arith))
write_at-write_at_before (suc o) (suc p) a b (x ∷ xs) h =
    ap (◌∷◌ x) (write_at-write_at_before o p a b xs (omega arith))

pub write_at-write_at_apart :
    (o p : ℕ) (a b xs : List ℕ)
    → (o + length a ≤ p) ⊎ (p + length b ≤ o)
    → write_at o a (write_at p b xs) ≡ write_at p b (write_at o a xs)
write_at-write_at_apart o p a b xs (inl h) = write_at-write_at_before o p a b xs h
write_at-write_at_apart o p a b xs (inr h) = sym (write_at-write_at_before p o b a xs h)
