-- ===== src/ConnectionPool/Tests.antt =====
-- The theorems on the connection pool at three round trips, and at an upstream that fails twice.
use gateway_a.Prelude.{
  ℕ, zero, suc, ◌<◌, true, false, Option, none, Result, ok, err, Error, message, codes, refl, arith,
}
use gateway_a.ConnectionPool.{Stats, new_stats, begin_round_trip, end_round_trip}
use gateway_a.ConnectionPool.Counters.{Counts, Trace, start, begin, answer, fail, Trace-Counts}
use gateway_a.ConnectionPool.Retry.{Failed}

abbrev after_three : Stats
after_three =
    end_round_trip false
      (begin_round_trip (end_round_trip true (begin_round_trip (begin_round_trip new_stats))))

three_round_trips : Trace after_three 1 1 1
three_round_trips =
    fail (begin (answer (begin (begin start (omega arith)) (omega arith))) (omega arith))

Trace-Counts_example : Counts after_three 1 1 1
Trace-Counts_example = Trace-Counts three_round_trips

-- An upstream that fails twice and then answers 7.
abbrev flaky : ℕ → Result ℕ
flaky zero = err (message (codes "refused"))
flaky (suc zero) = err (message (codes "refused"))
flaky (suc (suc i)) = ok 7

abbrev never : ℕ → Option Error
never i = none

flaky-Failed : (i : ℕ) → i < 2 → Failed flaky never i
flaky-Failed zero h = record { error = message (codes "refused"); failed = refl; waited_out = refl }
flaky-Failed (suc zero) h = record {
  error = message (codes "refused");
  failed = refl;
  waited_out = refl;
}
flaky-Failed (suc (suc i)) h = absurd (omega arith)
