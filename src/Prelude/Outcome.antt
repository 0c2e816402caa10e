-- ===== src/Prelude/Outcome.antt =====
-- What a Go call with an error result gives back.
pub data Outcome {ℓ κ} (E : Type ℓ) (A : Type κ) : Type (ℓ ⊔ κ) where
  ok : A → Outcome E A
  err : E → Outcome E A
