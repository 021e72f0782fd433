-- ===== src/Prelude/Errors.antt =====
-- Go's `error` values, as the program makes, wraps and inspects them.
use Prim.Native.Nat.{ℕ, zero, suc, ◌+◌, ◌-◌, ◌/◌, ◌%◌}
use mathlib.Core.Bool.{Bool, true, false}
use mathlib.Core.List.{[], ◌∷◌, ◌++◌}
use mathlib.Core.Path.{◌≡◌, refl}
use native.Mathlib.Omega.{arith}
use gateway_a.Prelude.Lists.{all}
use gateway_a.Prelude.Tests.{ltb, if◌then◌else◌}
use gateway_a.Prelude.Int.{ℤ, pos, negsuc}
use gateway_a.Prelude.Keys.{Text, codes}

pub data Error : Type 0 where
  -- circuitbreaker.ErrCircuitOpen
  circuit_open : Error
  -- what `ctx.Err()` returns
  canceled deadline_exceeded : Error
  -- errors.New, and fmt.Errorf with no %w
  message : Text → Error
  -- *handler.UpstreamError
  upstream : (status : ℕ) → Text → Error
  -- fmt.Errorf("prefix%w", err)
  wrapped : Text → Error → Error

-- `%d` of a natural number. There are at most as many digits as the fuel n + 1.
digits_from : ℕ → ℕ → Text → Text
digits_from zero n acc = acc
digits_from (suc f) n acc =
    let more = digits_from f (n / 10) ((b'0' + n % 10) ∷ acc) in
    if ltb n 10 then (b'0' + n) ∷ acc else more

unfoldable pub decimal : ℕ → Text
unfolding digits_from
decimal n = digits_from (n + 1) n []

-- A lower-case digit of `%x`.
abbrev pub hex_digit : ℕ → ℕ
hex_digit d = if ltb d 10 then b'0' + d else b'a' + (d - 10)

-- strconv.Itoa and strconv.FormatInt(n, 10)
unfoldable pub itoa : ℤ → Text
unfolding decimal
itoa (pos n) = decimal n
itoa (negsuc n) = b'-' ∷ decimal (n + 1)

-- Decimal numbers are ASCII text.
abbrev pub is_ascii : ℕ → Bool
is_ascii c = ltb c 128

digits_from-ascii :
    (f n : ℕ) (acc : Text) → all is_ascii acc ≡ true → all is_ascii (digits_from f n acc) ≡ true
unfolding digits_from
digits_from-ascii zero n acc h = h
digits_from-ascii (suc f) n acc h =
    ground (arith, digits_from-ascii f (n / 10) ((b'0' + n % 10) ∷ acc))

pub itoa-ascii : (n : ℤ) → all is_ascii (itoa n) ≡ true
unfolding itoa decimal
itoa-ascii (pos n) = digits_from-ascii (n + 1) n [] refl
itoa-ascii (negsuc n) = digits_from-ascii (n + 1 + 1) (n + 1) [] refl

-- The `Error` methods.
unfoldable pub error_text : Error → Text
error_text circuit_open = codes "circuit breaker is open"
error_text canceled = codes "context canceled"
error_text deadline_exceeded = codes "context deadline exceeded"
error_text (message m) = m
error_text (upstream status m) = codes "upstream " ++ decimal status ++ codes ": " ++ m
error_text (wrapped prefix e) = prefix ++ error_text e

-- errors.Is(err, ErrCircuitOpen)
unfoldable pub is_circuit_open : Error → Bool
is_circuit_open circuit_open = true
is_circuit_open (wrapped prefix e) = is_circuit_open e
is_circuit_open _ = false

-- What a function with an `error` result returns.
pub data Result {ℓ} (A : Type ℓ) : Type ℓ where
  ok : A → Result A
  err : Error → Result A
