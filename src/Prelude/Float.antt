-- ===== src/Prelude/Float.antt =====
-- Go's float64, which is not modelled by numbers: its values and the operations that the code calls
-- are a parameter. What a theorem needs of them is among its hypotheses.
use mootd.Prelude.{ℕ, Bool}

pub record Float64 (F : Type 0) : Type 0 where
  pub of_int : ℕ → F
  pub neg : F → F
  pub add : F → F → F
  pub sub : F → F → F
  pub mul : F → F → F
  pub div : F → F → F
  pub le : F → F → Bool
  pub lt : F → F → Bool
  -- The conversion to an integer, which drops the fraction, where the value is not negative.
  pub truncate : F → ℕ
