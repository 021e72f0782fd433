-- ===== src/ConnectionPool/Counters.antt =====
-- The counters of middleware/connectionpool/pool.go under concurrent round trips.
use gateway_a.Prelude.{
  ℕ, suc, ◌+◌, ◌<◌, ℤ, pos, negsuc, ◌+ℤ◌, to_int64, true, false, ◌≡◌, refl, arith, ap, ◌∙◌,
}
use gateway_a.ConnectionPool.{Stats, new_stats, begin_round_trip, end_round_trip}

-- Stats with these numbers of requests in flight, answered and failed.
pub record Counts (s : Stats) (flying answered failed : ℕ) : Type 0 where
  pub pending : s.pending ≡ pos flying
  pub used_conns : s.used_conns ≡ pos answered
  pub total_req : s.total_req ≡ pos (flying + answered + failed)
  pub total_resp : s.total_resp ≡ pos answered
  pub total_err : s.total_err ≡ pos failed
  pub reqs : s.reqs ≡ pos (flying + answered + failed)
  pub resp : s.resp ≡ pos answered
  pub errs : s.errs ≡ pos failed

-- Round trips of any number of goroutines, interleaved: one begins, or one in flight ends.
pub data Trace : Stats → (flying answered failed : ℕ) → Type 0 where
  start : Trace new_stats 0 0 0
  begin :
      {s : Stats} {n a f : ℕ}
      → Trace s n a f
      → suc (n + a + f) < 9223372036854775808
      → Trace (begin_round_trip s) (suc n) a f
  answer : {s : Stats} {n a f : ℕ} → Trace s (suc n) a f → Trace (end_round_trip true s) n (suc a) f
  fail : {s : Stats} {n a f : ℕ} → Trace s (suc n) a f → Trace (end_round_trip false s) n a (suc f)

Trace-bound : {s : Stats} {n a f : ℕ} → Trace s n a f → n + a + f < 9223372036854775808
Trace-bound start = omega arith
Trace-bound (begin t h) = omega arith
Trace-bound (answer t) = omega (arith, Trace-bound t)
Trace-bound (fail t) = omega (arith, Trace-bound t)

abbrev next : ℤ → ℤ
next x = to_int64 (x +ℤ pos 1)

abbrev previous : ℤ → ℤ
previous x = to_int64 (x +ℤ negsuc 0)

up : (n : ℕ) → suc n < 9223372036854775808 → to_int64 (pos n +ℤ pos 1) ≡ pos (suc n)
unfolding to_int64 ◌+ℤ◌
up n h = ground arith

down : (n : ℕ) → suc n < 9223372036854775808 → to_int64 (pos (suc n) +ℤ negsuc 0) ≡ pos n
unfolding to_int64 ◌+ℤ◌
down n h = ground arith

begin-Counts :
    (s : Stats) (n a f : ℕ)
    → Counts s n a f
    → suc (n + a + f) < 9223372036854775808
    → Counts (begin_round_trip s) (suc n) a f
unfolding begin_round_trip
begin-Counts s n a f c h =
    let more : to_int64 (pos (n + a + f) +ℤ pos 1) ≡ pos (suc n + a + f) =
      up (n + a + f) h ∙ ap pos (omega arith) in
    record {
      pending = ap next c.pending ∙ up n (omega arith);
      used_conns = c.used_conns;
      total_req = ap next c.total_req ∙ more;
      total_resp = c.total_resp;
      total_err = c.total_err;
      reqs = ap next c.reqs ∙ more;
      resp = c.resp;
      errs = c.errs;
    }

answer-Counts :
    (s : Stats) (n a f : ℕ)
    → Counts s (suc n) a f
    → suc n + a + f < 9223372036854775808
    → Counts (end_round_trip true s) n (suc a) f
unfolding end_round_trip
answer-Counts s n a f c h =
    let same : pos (suc n + a + f) ≡ pos (n + suc a + f) = ap pos (omega arith) in
    record {
      pending = ap previous c.pending ∙ down n (omega arith);
      used_conns = ap next c.used_conns ∙ up a (omega arith);
      total_req = c.total_req ∙ same;
      total_resp = ap next c.total_resp ∙ up a (omega arith);
      total_err = c.total_err;
      reqs = c.reqs ∙ same;
      resp = ap next c.resp ∙ up a (omega arith);
      errs = c.errs;
    }

fail-Counts :
    (s : Stats) (n a f : ℕ)
    → Counts s (suc n) a f
    → suc n + a + f < 9223372036854775808
    → Counts (end_round_trip false s) n a (suc f)
unfolding end_round_trip
fail-Counts s n a f c h =
    let same : pos (suc n + a + f) ≡ pos (n + a + suc f) = ap pos (omega arith) in
    record {
      pending = ap previous c.pending ∙ down n (omega arith);
      used_conns = c.used_conns;
      total_req = c.total_req ∙ same;
      total_resp = c.total_resp;
      total_err = ap next c.total_err ∙ up f (omega arith);
      reqs = c.reqs ∙ same;
      resp = c.resp;
      errs = ap next c.errs ∙ up f (omega arith);
    }

-- In every interleaving of fewer than 2^63 round trips, the pending count is the number of round
-- trips in flight, and the totals are the numbers begun, answered and failed. The count of active
-- connections is the number of all responses so far.
pub Trace-Counts : {s : Stats} {n a f : ℕ} → Trace s n a f → Counts s n a f
Trace-Counts start = record {
  pending = refl;
  used_conns = refl;
  total_req = refl;
  total_resp = refl;
  total_err = refl;
  reqs = refl;
  resp = refl;
  errs = refl;
}
Trace-Counts (begin {s} {n} {a} {f} t h) = begin-Counts s n a f (Trace-Counts t) h
Trace-Counts (answer {s} {n} {a} {f} t) = answer-Counts s n a f (Trace-Counts t) (Trace-bound t)
Trace-Counts (fail {s} {n} {a} {f} t) = fail-Counts s n a f (Trace-Counts t) (Trace-bound t)
