-- ===== src/CircuitBreaker/Stats.antt =====
-- What middleware/circuitbreaker/circuit.go tells of a breaker: String, GetState, GetStats, IsClosed,
-- IsOpen and IsHalfOpen.
use gateway_a.Prelude.{ℤ, Bool, true, Text, codes, String, List, [], ◌∷◌, ◌≡◌, ◌↔◌, refl, arith}
use gateway_a.CircuitBreaker.{State, closed, opened, half_open, state_eq, CircuitBreaker, get_state}

-- The method String of a state.
abbrev pub state_text : State → Text
state_text closed = codes "CLOSED"
state_text opened = codes "OPEN"
state_text half_open = codes "HALF_OPEN"

state_eq_iff : (s t : State) → (state_eq s t ≡ true) ↔ (state_text s ≡ state_text t)
state_eq_iff closed closed = (λ _. refl, λ _. refl)
state_eq_iff closed opened = ground arith
state_eq_iff closed half_open = ground arith
state_eq_iff opened closed = ground arith
state_eq_iff opened opened = (λ _. refl, λ _. refl)
state_eq_iff opened half_open = ground arith
state_eq_iff half_open closed = ground arith
state_eq_iff half_open opened = ground arith
state_eq_iff half_open half_open = (λ _. refl, λ _. refl)

pub data Stat : Type 0 where
  state : Text → Stat
  count : ℤ → Stat

module _ {F : Type 0} where
  -- GetState.
  unfoldable pub get_state_text : CircuitBreaker F → Text
  get_state_text cb = state_text (get_state cb)

  unfoldable pub get_stats : CircuitBreaker F → List (String × Stat)
  unfolding get_state_text
  get_stats cb =
      ("state", state (get_state_text cb))
      ∷ ("total_requests", count cb.total_requests)
      ∷ ("failures", count cb.failures)
      ∷ ("successes", count cb.successes)
      ∷ ("half_open_requests", count cb.half_open_requests)
      ∷ []

  unfoldable pub is_closed : CircuitBreaker F → Bool
  is_closed cb = state_eq (get_state cb) closed

  unfoldable pub is_open : CircuitBreaker F → Bool
  is_open cb = state_eq (get_state cb) opened

  unfoldable pub is_half_open : CircuitBreaker F → Bool
  is_half_open cb = state_eq (get_state cb) half_open

  -- The three tests agree with the text of the state.
  pub get_state_text_iff :
      (cb : CircuitBreaker F)
      → ((is_closed cb ≡ true) ↔ (get_state_text cb ≡ codes "CLOSED"))
        × ((is_open cb ≡ true) ↔ (get_state_text cb ≡ codes "OPEN"))
        × ((is_half_open cb ≡ true) ↔ (get_state_text cb ≡ codes "HALF_OPEN"))
  unfolding is_closed is_open is_half_open get_state_text
  get_state_text_iff cb = (
    state_eq_iff (get_state cb) closed,
    state_eq_iff (get_state cb) opened,
    state_eq_iff (get_state cb) half_open,
  )
