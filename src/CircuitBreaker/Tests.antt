-- ===== src/CircuitBreaker/Tests.antt =====
-- The theorems on the circuit breaker at concrete requests.
use gateway_a.Prelude.{
  ℕ, zero, suc, ◌+◌, ℤ, pos, Option, none, some, List, [], ◌∷◌, length, Error, message, codes,
  arith, ◌≡◌, refl, false,
}
use gateway_a.Samples.{whole}
use gateway_a.CircuitBreaker.{State, Config, CircuitBreaker, Env, new}
use gateway_a.CircuitBreaker.Counters.{Counts}
use gateway_a.CircuitBreaker.Runs.{Request, run, run_direct, count_failed, count_succeeded, run-new}
use gateway_a.CircuitBreaker.Middleware.{CircuitBreakerMiddleware}

abbrev config : Config ℤ
config = record {
  failure_threshold = pos 50;
  reset_timeout = pos 30000000000;
  half_open_max_requests = pos 3;
  timeout = pos 30000000000;
}

abbrev live : Env
live = record {
  allow_time = pos 10;
  record_time = pos 20;
  reset_time = pos 30;
  err_before = none;
  err_after = none;
}

abbrev refused : Error
refused = message (codes "refused")

-- An upstream that counts its requests and answers every second one.
abbrev answer : ℕ → Option Error
answer zero = some refused
answer (suc zero) = none
answer (suc (suc n)) = some refused

abbrev upstream_call : ℕ → ℕ × Option Error
upstream_call n = (n + 1, answer n)

abbrev requests : List (Request ℕ)
requests = (live, upstream_call) ∷ (live, upstream_call) ∷ (live, upstream_call) ∷ []

-- A breaker in a given state.
abbrev breaker : State → ℤ → CircuitBreaker ℤ
breaker s admitted = record {
  config = config;
  state = some s;
  failures = pos 20;
  successes = pos 2;
  total_requests = pos 22;
  last_failure_time = some (pos 0);
  half_open_requests = admitted;
  last_reset_time = pos 0;
}

abbrev middleware : State → CircuitBreakerMiddleware ℤ
middleware s = record {
  breaker = breaker s (pos 0);
  fallback = false;
  upstream_url = codes "http://llm";
}

run-new_example :
    ((run requests (new config) 0).2 ≡ (run_direct requests 0).1)
    × Counts
        (run requests (new config) 0).0
        (count_failed (run_direct requests 0).1)
        (count_succeeded (run_direct requests 0).1)
        (length requests)
run-new_example = run-new config requests 0 (ground arith)

run_direct_refusals : (run_direct requests 0).1 ≡ some refused ∷ none ∷ some refused ∷ []
unfolding run_direct
run_direct_refusals = refl
