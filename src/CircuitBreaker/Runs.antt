-- ===== src/CircuitBreaker/Runs.antt =====
-- Sequences of calls through one closed breaker, against the same calls with no breaker at all.
use gateway_a.Prelude.{
  ℕ, ◌+◌, ◌<◌, ◌≤◌, ◌≡◌, refl, ap, ◌∙◌, Option, none, some, List, [], ◌∷◌, arith, length, Float64,
  Error,
}
use gateway_a.CircuitBreaker.{
  closed, CircuitBreaker, Config, Env, new, get_state, record_outcome, count_request, execute, call,
}
use gateway_a.CircuitBreaker.Counters.{
  Counts, record_failure-Counts, record_success-Counts, count_request-Counts,
}
use gateway_a.CircuitBreaker.Transitions.{allow_request-closed, get_state-call}

-- A request with no breaker: fn runs unless the context is done before it, and a context that is
-- done after it replaces its error.
abbrev pub or_else : Option Error → Option Error → Option Error
or_else (some e) err = some e
or_else none err = err

abbrev pub direct : {S : Type 0} → (S → S × Option Error) → Env → S → S × Option Error
direct fn env s = elim env.err_before [
  | some e ↦ (s, some e)
  | none ↦ ((fn s).0, or_else env.err_after (fn s).1)
]

-- How a result moves the two counters.
abbrev pub failed : Option Error → ℕ
failed none = 0
failed (some e) = 1

abbrev pub succeeded : Option Error → ℕ
succeeded none = 1
succeeded (some e) = 0

module _ {F : Type 0} ⦃fl : Float64 F⦄ {S : Type 0} (fn : S → S × Option Error) where
  call-closed :
      (env : Env) (cb : CircuitBreaker F) (s : S)
      → get_state cb ≡ closed
      → call fn env cb s ≡ execute fn env (count_request cb) s
  unfolding call
  call-closed env cb s h = rw (allow_request-closed env.allow_time cb h) refl

  execute-direct :
      (env : Env) (cb : CircuitBreaker F) (s : S)
      → ((execute fn env cb s).1 ≡ (direct fn env s).0)
        × ((execute fn env cb s).2 ≡ (direct fn env s).1)
  unfolding record_outcome
  execute-direct env cb s = ground arith

  -- A closed breaker is transparent: the call leaves fn's state, and returns the error, that the
  -- request has with no breaker.
  pub call-direct :
      (env : Env) (cb : CircuitBreaker F) (s : S)
      → get_state cb ≡ closed
      → ((call fn env cb s).1 ≡ (direct fn env s).0) × ((call fn env cb s).2 ≡ (direct fn env s).1)
  call-direct env cb s h = rw (call-closed env cb s h) (execute-direct env (count_request cb) s)

  execute-Counts :
      (env : Env) (cb : CircuitBreaker F) (s : S) (f g t : ℕ)
      → f + 1 < 9223372036854775808
      → g + 1 < 9223372036854775808
      → Counts cb f g t
      → Counts
          (execute fn env cb s).0
          (f + failed (direct fn env s).1)
          (g + succeeded (direct fn env s).1)
          t
  unfolding record_outcome
  execute-Counts env cb s f g t hf hg c = ground (
    arith,
    record_failure-Counts env cb f g t hf c,
    record_success-Counts env cb env.reset_time f g t hg c,
  )

-- One request: its readings of the clock and the context, and the function that it runs.
abbrev pub Request : Type 0 → Type 0
Request S = Env × (S → S × Option Error)

failed-le : (r : Option Error) → failed r ≤ 1
failed-le none = omega arith
failed-le (some e) = omega arith

succeeded-le : (r : Option Error) → succeeded r ≤ 1
succeeded-le none = omega arith
succeeded-le (some e) = omega arith

module _ {F : Type 0} where
  new-Counts : (config : Config F) → Counts (new config) 0 0 0
  unfolding new get_state
  new-Counts config = record { state = refl; failures = refl; successes = refl; total = refl }

  Counts-eq :
      {cb : CircuitBreaker F} {f f' g g' t t' : ℕ}
      → Counts cb f g t
      → f ≡ f'
      → g ≡ g'
      → t ≡ t'
      → Counts cb f' g' t'
  Counts-eq c p q r = ground arith

abbrev pub count_failed : List (Option Error) → ℕ
count_failed [] = 0
count_failed (r ∷ rs) = failed r + count_failed rs

abbrev pub count_succeeded : List (Option Error) → ℕ
count_succeeded [] = 0
count_succeeded (r ∷ rs) = succeeded r + count_succeeded rs

module _ {S : Type 0} where
  -- The requests one after another with no breaker: the last state, and the results.
  unfoldable pub run_direct : List (Request S) → S → S × List (Option Error)
  run_direct [] s = (s, [])
  run_direct ((env, fn) ∷ rs) s =
      let (s', r) = direct fn env s in let (s'', results) = run_direct rs s' in (s'', r ∷ results)

  module _ {F : Type 0} ⦃fl : Float64 F⦄ where
    -- The same through one breaker.
    unfoldable pub run :
        List (Request S) → CircuitBreaker F → S → CircuitBreaker F × S × List (Option Error)
    run [] cb s = (cb, s, [])
    run ((env, fn) ∷ rs) cb s =
        let (cb', s', r) = call fn env cb s in
        let (cb'', s'', results) = run rs cb' s' in (cb'', s'', r ∷ results)

    call-Counts :
        (fn : S → S × Option Error) (env : Env) (cb : CircuitBreaker F) (s : S) (f g t : ℕ)
        → f + 1 < 9223372036854775808
        → g + 1 < 9223372036854775808
        → t + 1 < 9223372036854775808
        → Counts cb f g t
        → Counts
            (call fn env cb s).0
            (f + failed (direct fn env s).1)
            (g + succeeded (direct fn env s).1)
            (t + 1)
    call-Counts fn env cb s f g t hf hg ht c = rw (call-closed fn env cb s c.state) (
        execute-Counts fn env (count_request cb) s f g (t + 1) hf hg
          (count_request-Counts env cb f g t ht c))

    -- Through a closed breaker the requests have the results and the final state that they have
    -- with no breaker, whatever fails and however often.
    pub run-direct :
        (rs : List (Request S)) (cb : CircuitBreaker F) (s : S)
        → get_state cb ≡ closed
        → ((run rs cb s).1 ≡ (run_direct rs s).0) × ((run rs cb s).2 ≡ (run_direct rs s).1)
    unfolding run run_direct
    run-direct [] cb s h = (refl, refl)
    run-direct ((env, fn) ∷ rs) cb s h =
        let (same_state, same_result) = call-direct fn env cb s h in
        let (ih_state, ih_results) =
          run-direct rs (call fn env cb s).0 (direct fn env s).0 (get_state-call fn env cb s ∙ h) in
        rw (same_state, same_result) (ih_state, ap (λ t. (direct fn env s).1 ∷ t) ih_results)

    -- The counters are the numbers of failed, successful and all requests, while the number of
    -- requests is below 2^63.
    pub run-Counts :
        (rs : List (Request S)) (cb : CircuitBreaker F) (s : S) (f g t : ℕ)
        → f + length rs < 9223372036854775808
        → g + length rs < 9223372036854775808
        → t + length rs < 9223372036854775808
        → Counts cb f g t
        → Counts
            (run rs cb s).0
            (f + count_failed (run_direct rs s).1)
            (g + count_succeeded (run_direct rs s).1)
            (t + length rs)
    unfolding run run_direct
    run-Counts [] cb s f g t hf hg ht c = ground (arith, c)
    run-Counts ((env, fn) ∷ rs) cb s f g t hf hg ht c = rw (call-direct fn env cb s c.state).0 (
        Counts-eq
          (run-Counts rs (call fn env cb s).0 (direct fn env s).0 (f + failed (direct fn env s).1)
            (g + succeeded (direct fn env s).1) (t + 1)
            (omega (arith, failed-le (direct fn env s).1))
            (omega (arith, succeeded-le (direct fn env s).1)) (omega arith)
            (call-Counts fn env cb s f g t (omega arith) (omega arith) (omega arith) c))
          (omega arith) (omega arith) (omega arith))

    -- A new breaker never opens and never refuses: whatever fails, each request has the result
    -- that it has with no breaker, the breaker is closed at the end, and its counters are the
    -- numbers of failed, successful and all requests.
    pub run-new :
        (config : Config F) (rs : List (Request S)) (s : S)
        → length rs < 9223372036854775808
        → ((run rs (new config) s).2 ≡ (run_direct rs s).1)
          × Counts
              (run rs (new config) s).0
              (count_failed (run_direct rs s).1)
              (count_succeeded (run_direct rs s).1)
              (length rs)
    run-new config rs s h = (
      (run-direct rs (new config) s (new-Counts config).state).1,
      Counts-eq
          (run-Counts rs (new config) s 0 0 0 (omega arith) (omega arith) (omega arith)
            (new-Counts config))
          (omega arith) (omega arith) (omega arith),
    )
