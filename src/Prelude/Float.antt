-- ===== src/Prelude/Float.antt =====
-- Go's `float64`: a type with the operations that the program uses. IEEE arithmetic is not
-- modelled, so these are parameters of every definition that computes with floats.
use gateway_a.Prelude.Int.{ℤ}
use mathlib.Core.Bool.{Bool}

pub record Float64 (F : Type 0) : Type 0 where
  -- float64(n), and int64(x)
  pub of_int : ℤ → F
  pub truncate : F → ℤ
  pub fmul : F → F → F
  pub fdiv : F → F → F
  -- x <= y
  pub fle : F → F → Bool
  -- x < y
  pub flt : F → F → Bool
