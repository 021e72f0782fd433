-- ===== src/CircuitBreaker/Transitions.antt =====
-- What one transition, one admission and one call do to the breaker of
-- middleware/circuitbreaker/circuit.go, on every branch.
use gateway_a.Prelude.{
  ℤ, pos, ◌+ℤ◌, leb_ℤ, to_int32, to_int64, ◌≡◌, refl, ◌≢◌, ◌↔◌, true, Option, none, some, arith,
  if◌then◌else◌, Float64, Error, circuit_open, ◌∙◌,
}
use gateway_a.CircuitBreaker.{
  State, closed, opened, half_open, state_eq, CircuitBreaker, Env, get_state, transition_to,
  allow_request, record_success, record_failure, record_outcome, count_request, execute, call,
  after_fn, when_allowed,
}

pub state_eq_iff : (s t : State) → (state_eq s t ≡ true) ↔ (s ≡ t)
state_eq_iff closed closed = ground arith
state_eq_iff closed opened = ground arith
state_eq_iff closed half_open = ground arith
state_eq_iff opened closed = ground arith
state_eq_iff opened opened = ground arith
state_eq_iff opened half_open = ground arith
state_eq_iff half_open closed = ground arith
state_eq_iff half_open opened = ground arith
state_eq_iff half_open half_open = ground arith

module _ {F : Type 0} where
  -- A transition never changes the state that the breaker reports.
  pub get_state-transition_to :
      (now : ℤ) (s : State) (cb : CircuitBreaker F)
      → get_state (transition_to now s cb).0 ≡ get_state cb
  unfolding transition_to
  get_state-transition_to now closed cb = ground arith
  get_state-transition_to now opened cb = ground arith
  get_state-transition_to now half_open cb = ground arith

  -- A transition reports success exactly when the breaker is already in the requested state and
  -- that state is not half-open.
  pub transition_to-true_iff :
      (now : ℤ) (s : State) (cb : CircuitBreaker F)
      → ((transition_to now s cb).1 ≡ true) ↔ ((s ≡ get_state cb) × (s ≢ half_open))
  unfolding transition_to
  transition_to-true_iff now closed cb = ground arith
  transition_to-true_iff now opened cb = ground arith
  transition_to-true_iff now half_open cb = ground arith

  -- An opened breaker refuses every request, however long ago the last failure was, and stays as
  -- it is.
  pub allow_request-opened :
      (now : ℤ) (cb : CircuitBreaker F)
      → get_state cb ≡ opened
      → allow_request now cb ≡ (cb, some circuit_open)
  unfolding allow_request transition_to
  allow_request-opened now cb h = ground arith

  -- A half-open breaker admits a request, and counts it, exactly while its count is below the
  -- limit.
  pub allow_request-half_open :
      (now : ℤ) (cb : CircuitBreaker F)
      → get_state cb ≡ half_open
      → allow_request now cb ≡ (
          if leb_ℤ (to_int32 cb.config.half_open_max_requests) cb.half_open_requests
          then (cb, some circuit_open)
          else (record cb { half_open_requests = to_int32 (cb.half_open_requests +ℤ pos 1) }, none))
  unfolding allow_request
  allow_request-half_open now cb h = ground arith

  pub allow_request-closed :
      (now : ℤ) (cb : CircuitBreaker F) → get_state cb ≡ closed → allow_request now cb ≡ (cb, none)
  unfolding allow_request
  allow_request-closed now cb h = ground arith

  -- Recording a success counts it and does nothing else: the transition to closed is never made.
  pub record_success_lem :
      (now : ℤ) (cb : CircuitBreaker F)
      → record_success now cb ≡ record cb { successes = to_int64 (cb.successes +ℤ pos 1) }
  unfolding record_success transition_to
  record_success_lem now cb = ground arith

  pub get_state-allow_request :
      (now : ℤ) (cb : CircuitBreaker F) → get_state (allow_request now cb).0 ≡ get_state cb
  unfolding allow_request transition_to
  get_state-allow_request now cb = ground arith

module _ {F : Type 0} ⦃fl : Float64 F⦄ where
  -- Unless the breaker is opened, recording a failure counts it and notes its time, and does
  -- nothing else: the breaker is never opened.
  pub record_failure_lem :
      (env : Env) (cb : CircuitBreaker F)
      → get_state cb ≢ opened
      → record_failure env cb ≡ record cb {
        failures = to_int64 (cb.failures +ℤ pos 1);
        last_failure_time = some env.record_time;
      }
  unfolding record_failure transition_to
  record_failure_lem env cb h = ground arith

  pub get_state-record_failure :
      (env : Env) (cb : CircuitBreaker F) → get_state (record_failure env cb) ≡ get_state cb
  unfolding record_failure transition_to
  get_state-record_failure env cb = ground arith

  module _ {S : Type 0} (fn : S → S × Option Error) where
    get_state-after_fn :
        (env : Env) (cb : CircuitBreaker F) (p : S × Option Error)
        → get_state (after_fn fn env cb p).0 ≡ get_state cb
    unfolding record_outcome get_state
    get_state-after_fn env cb (s, err) =
        ground (arith, get_state-record_failure env cb, record_success_lem env.reset_time cb)

    get_state-execute :
        (env : Env) (cb : CircuitBreaker F) (s : S)
        → get_state (execute fn env cb s).0 ≡ get_state cb
    get_state-execute env cb s =
        ground (arith, get_state-after_fn env cb (fn s), get_state-record_failure env cb)

    get_state-when_allowed :
        (env : Env) (s : S) (p : CircuitBreaker F × Option Error)
        → get_state (when_allowed fn env s p).0 ≡ get_state p.0
    unfolding count_request
    get_state-when_allowed env s (cb, none) =
        get_state-execute env (count_request cb) s ∙ (unfold get_state in refl)
    get_state-when_allowed env s (cb, some e) = refl

    -- Whatever fn does and whatever the time is, a call leaves the state as it was.
    pub get_state-call :
        (env : Env) (cb : CircuitBreaker F) (s : S) → get_state (call fn env cb s).0 ≡ get_state cb
    unfolding call
    get_state-call env cb s =
        get_state-when_allowed env s (allow_request env.allow_time cb)
        ∙ get_state-allow_request env.allow_time cb
