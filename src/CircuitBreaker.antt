-- ===== src/CircuitBreaker.antt =====
-- middleware/circuitbreaker/circuit.go: the breaker, and one function for each of its methods.
-- The fields that Go keeps in an `atomic.Value` may be unset, hence the options. Each reading of
-- the clock or of `ctx.Err()` is an argument; times and durations are nanoseconds.
pub mod Transitions
pub mod Counters
pub mod Runs
pub mod Stats
pub mod Middleware
mod Tests
use gateway_a.Prelude.{
  ℕ, ◌-◌, ℤ, pos, negsuc, ◌+ℤ◌, ◌-ℤ◌, ltb_ℤ, leb_ℤ, to_int32, to_int64, Bool, true, false, not,
  ◌&&◌, Option, none, some, List, [], ◌∷◌, if◌then◌else◌, Float64, Error, circuit_open, String,
}

pub data State : Type 0 where
  closed opened half_open : State

-- `==` on states.
abbrev pub state_eq : State → State → Bool
state_eq closed closed = true
state_eq opened opened = true
state_eq half_open half_open = true
state_eq _ _ = false

pub record Config (F : Type 0) : Type 0 where
  pub failure_threshold : F
  pub reset_timeout : ℤ
  pub half_open_max_requests : ℤ
  pub timeout : ℤ

pub record CircuitBreaker (F : Type 0) : Type 0 where
  pub config : Config F
  pub state : Option State
  pub failures : ℤ
  pub successes : ℤ
  pub total_requests : ℤ
  pub last_failure_time : Option ℤ
  pub half_open_requests : ℤ
  pub last_reset_time : ℤ

-- time.Time{}, the start of the year 1, in nanoseconds of Unix time.
abbrev zero_time : ℤ
zero_time = negsuc 62135596799999999999

abbrev max_duration : ℤ
max_duration = pos 9223372036854775807

abbrev min_duration : ℤ
min_duration = negsuc 9223372036854775807

-- time.Since(t), which saturates.
since : ℤ → ℤ → ℤ
since now t =
    let d = now -ℤ t in
    if ltb_ℤ max_duration d then max_duration else if ltb_ℤ d min_duration then min_duration else d

-- DefaultCircuitBreakerConfig, for the integer fields; the threshold is 50.0.
unfoldable pub default_config : {F : Type 0} ⦃fl : Float64 F⦄ → Config F
default_config ⦃fl⦄ = record {
  failure_threshold = fl.of_int (pos 50);
  reset_timeout = pos 30000000000;
  half_open_max_requests = pos 3;
  timeout = pos 30000000000;
}

unfoldable pub new : {F : Type 0} → Config F → CircuitBreaker F
new config = record {
  config = config;
  state = some closed;
  failures = pos 0;
  successes = pos 0;
  total_requests = pos 0;
  last_failure_time = some zero_time;
  half_open_requests = pos 0;
  last_reset_time = zero_time;
}

abbrev or_closed : Option State → State
or_closed none = closed
or_closed (some s) = s

abbrev or_zero_time : Option ℤ → ℤ
or_zero_time none = zero_time
or_zero_time (some t) = t

-- One call's readings of the clock and of `ctx.Err()`.
pub record Env : Type 0 where
  -- in allowRequest, and for its transition
  pub allow_time : ℤ
  -- in recordFailure, and for its transition
  pub record_time : ℤ
  pub reset_time : ℤ
  -- `ctx.Err()` before and after fn
  pub err_before : Option Error
  pub err_after : Option Error

module _ {F : Type 0} where
  unfoldable pub get_state : CircuitBreaker F → State
  get_state cb = or_closed cb.state

  get_last_failure_time : CircuitBreaker F → ℤ
  get_last_failure_time cb = or_zero_time cb.last_failure_time

  reset_counters : CircuitBreaker F → CircuitBreaker F
  reset_counters cb = record cb { failures = pos 0; successes = pos 0 }

  -- The writes that follow `cb.state.Store(newState)`.
  abbrev enter : ℤ → State → CircuitBreaker F → CircuitBreaker F
  enter now closed cb = cb
  enter now opened cb = reset_counters (record cb { last_reset_time = now })
  enter now half_open cb = record cb { half_open_requests = pos 0 }

  unfoldable pub transition_to : ℤ → State → CircuitBreaker F → CircuitBreaker F × Bool
  unfolding get_state reset_counters
  transition_to now new_state cb =
      let current = get_state cb in
      if not (state_eq current new_state)
      then (cb, false)
      else if state_eq new_state half_open && not (state_eq current opened)
      then (cb, false)
      else (enter now new_state (record cb { state = some new_state }), true)

  -- What allowRequest makes of the transition to half-open.
  abbrev admit_if : CircuitBreaker F × Bool → CircuitBreaker F × Option Error
  admit_if (cb, moved) = (cb, if moved then none else some circuit_open)

  allow_in : State → ℤ → CircuitBreaker F → CircuitBreaker F × Option Error
  unfolding get_last_failure_time since
  allow_in closed now cb = (cb, none)
  allow_in opened now cb =
      if ltb_ℤ cb.config.reset_timeout (since now (get_last_failure_time cb))
      then admit_if (transition_to now half_open cb)
      else (cb, some circuit_open)
  allow_in half_open now cb =
      if leb_ℤ (to_int32 cb.config.half_open_max_requests) cb.half_open_requests
      then (cb, some circuit_open)
      else (record cb { half_open_requests = to_int32 (cb.half_open_requests +ℤ pos 1) }, none)

  unfoldable pub allow_request : ℤ → CircuitBreaker F → CircuitBreaker F × Option Error
  unfolding allow_in get_state
  allow_request now cb = allow_in (get_state cb) now cb

  unfoldable pub record_success : ℤ → CircuitBreaker F → CircuitBreaker F
  unfolding get_state
  record_success now cb =
      let counted = record cb { successes = to_int64 (cb.successes +ℤ pos 1) } in
      if state_eq (get_state counted) half_open && leb_ℤ cb.half_open_requests counted.successes
      then (transition_to now closed counted).0
      else counted

  pub count_request : CircuitBreaker F → CircuitBreaker F
  count_request cb = record cb { total_requests = to_int64 (cb.total_requests +ℤ pos 1) }

module _ {F : Type 0} ⦃fl : Float64 F⦄ where
  -- float64(failures) / float64(total) * 100 >= threshold
  rate_reached : CircuitBreaker F → ℤ → Bool
  rate_reached cb total =
      fl.fle cb.config.failure_threshold
        (fl.fmul (fl.fdiv (fl.of_int cb.failures) (fl.of_int total)) (fl.of_int (pos 100)))

  abbrev trip : ℤ → CircuitBreaker F → CircuitBreaker F
  trip now cb =
      let total = to_int64 (cb.failures +ℤ cb.successes) in
      if ltb_ℤ total (pos 10)
      then cb
      else if rate_reached cb total
      then (transition_to now opened cb).0
      else cb

  unfoldable pub record_failure : Env → CircuitBreaker F → CircuitBreaker F
  unfolding rate_reached
  record_failure env cb = trip env.reset_time (record cb {
    failures = to_int64 (cb.failures +ℤ pos 1);
    last_failure_time = some env.record_time;
  })

  -- From `cb.totalRequests.Add(1)` on, with what fn returned.
  record_outcome : Env → CircuitBreaker F → Option Error → CircuitBreaker F × Option Error
  record_outcome env cb err = elim env.err_after [
    | some e ↦ (record_failure env cb, some e)
    | none ↦
        (elim err [ some e ↦ record_failure env cb | none ↦ record_success env.reset_time cb ], err)
  ]

  module _ {S : Type 0} (fn : S → S × Option Error) where
    abbrev after_fn :
        Env → CircuitBreaker F → S × Option Error → CircuitBreaker F × S × Option Error
    after_fn env cb (s, err) = let (cb', result) = record_outcome env cb err in (cb', s, result)

    abbrev execute : Env → CircuitBreaker F → S → CircuitBreaker F × S × Option Error
    execute env cb s = elim env.err_before [
      | some e ↦ (record_failure env cb, s, some e)
      | none ↦ after_fn env cb (fn s)
    ]

    abbrev when_allowed :
        Env → S → CircuitBreaker F × Option Error → CircuitBreaker F × S × Option Error
    when_allowed env s (cb, some e) = (cb, s, some e)
    when_allowed env s (cb, none) = execute env (count_request cb) s

    -- `Call`: fn works on a state of its own, and the breaker returns what fn left.
    unfoldable pub call : Env → CircuitBreaker F → S → CircuitBreaker F × S × Option Error
    unfolding record_outcome count_request
    call env cb s = when_allowed env s (allow_request env.allow_time cb)
