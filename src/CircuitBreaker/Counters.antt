-- ===== src/CircuitBreaker/Counters.antt =====
-- What one request does to the counters of a closed breaker.
use gateway_a.Prelude.{
  ℕ, ◌+◌, ◌<◌, ℤ, pos, ◌+ℤ◌, to_int64, to_int64_pos, +ℤ_pos, ◌≡◌, ap, ◌∙◌, arith, Float64,
}
use gateway_a.CircuitBreaker.{
  closed, CircuitBreaker, Env, get_state, record_success, record_failure, count_request,
}
use gateway_a.CircuitBreaker.Transitions.{record_success_lem, record_failure_lem}

-- A closed breaker with these counts.
pub record Counts {F : Type 0} (cb : CircuitBreaker F) (f g t : ℕ) : Type 0 where
  pub state : get_state cb ≡ closed
  pub failures : cb.failures ≡ pos f
  pub successes : cb.successes ≡ pos g
  pub total : cb.total_requests ≡ pos t

next_count : (n : ℕ) → n + 1 < 9223372036854775808 → to_int64 (pos n +ℤ pos 1) ≡ pos (n + 1)
next_count n h = ap to_int64 (+ℤ_pos n 1) ∙ to_int64_pos (n + 1) h

module _ {F : Type 0} ⦃fl : Float64 F⦄ (env : Env) (cb : CircuitBreaker F) where
  pub record_failure-Counts :
      (f g t : ℕ)
      → f + 1 < 9223372036854775808
      → Counts cb f g t
      → Counts (record_failure env cb) (f + 1) g t
  unfolding get_state
  record_failure-Counts f g t h c = rw (record_failure_lem env cb (λ e. ground arith)) (record {
    state = c.state;
    failures = rw c.failures (next_count f h);
    successes = c.successes;
    total = c.total;
  })

  pub record_success-Counts :
      (now : ℤ) (f g t : ℕ)
      → g + 1 < 9223372036854775808
      → Counts cb f g t
      → Counts (record_success now cb) f (g + 1) t
  unfolding get_state
  record_success-Counts now f g t h c = rw (record_success_lem now cb) (record {
    state = c.state;
    failures = c.failures;
    successes = rw c.successes (next_count g h);
    total = c.total;
  })

  pub count_request-Counts :
      (f g t : ℕ)
      → t + 1 < 9223372036854775808
      → Counts cb f g t
      → Counts (count_request cb) f g (t + 1)
  unfolding get_state count_request
  count_request-Counts f g t h c = record {
    state = c.state;
    failures = c.failures;
    successes = c.successes;
    total = rw c.total (next_count t h);
  }
