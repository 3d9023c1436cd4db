-- ===== src/Base/Outcome.antt =====
-- What a Rust call that may fail does: it returns, returns an error, or panics.

pub data Outcome {ℓ κ} (E : Type κ) (A : Type ℓ) : Type (ℓ ⊔ κ) where
  ok : A → Outcome E A
  err : E → Outcome E A
  panic : Outcome E A
