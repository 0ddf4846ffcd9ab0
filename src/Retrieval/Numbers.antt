-- ===== src/Retrieval/Numbers.antt =====
-- The floating-point numbers that modules/zh-retrieval-lab computes with, as operations on a type: its
-- formulas are written with these, and nothing is assumed of them.
use mastery.Prelude.{ℕ, Bool}

pub record Num {ℓ} (R : Type ℓ) : Type ℓ where
  pub of_nat : ℕ → R
  pub plus : R → R → R
  pub minus : R → R → R
  pub times : R → R → R
  pub over : R → R → R
  pub ln : R → R
  pub below : R → R → Bool
