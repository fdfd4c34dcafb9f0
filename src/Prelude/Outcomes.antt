-- ===== src/Prelude/Outcomes.antt =====
-- What a Go function returns: a value, an error value, or a run-time panic.
pub data Outcome {ℓ κ} (E : Type ℓ) (A : Type κ) : Type (ℓ ⊔ κ) where
  ok : A → Outcome E A
  err : E → Outcome E A
  panic : Outcome E A
