-- ===== src/Samples.antt =====
-- A type of whole numbers in the place of `float64`, for the tests.
use gateway_a.Prelude.{◌/◌, ℤ, pos, ◌*ℤ◌, ltb_ℤ, leb_ℤ, Float64}

abbrev quotient : ℤ → ℤ → ℤ
quotient (pos m) (pos n) = pos (m / n)
quotient a b = pos 0

instance abbrev pub whole : Float64 ℤ
whole = record {
  of_int = λ n. n;
  truncate = λ n. n;
  fmul = λ a b. a *ℤ b;
  fdiv = quotient;
  fle = leb_ℤ;
  flt = ltb_ℤ;
}
