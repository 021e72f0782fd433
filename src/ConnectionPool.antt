-- ===== src/ConnectionPool.antt =====
-- middleware/connectionpool/pool.go: the counters of the pool and of the round tripper, the retry
-- loop of middleware/connectionpool/middleware.go. The transport itself is the library's.
pub mod Counters
pub mod Retry
pub mod Clients
mod Tests
use gateway_a.Prelude.{
  ℕ, zero, suc, ◌+◌, ◌*◌, ℤ, pos, negsuc, ◌+ℤ◌, to_int64, Bool, true, false, Option, none, some,
  List, [], ◌∷◌, Error, Result, ok, err,
}

-- The int64 counters of `TransportPool` and of its `atomicStats`.
pub record Stats : Type 0 where
  pub pending : ℤ
  pub used_conns : ℤ
  pub total_req : ℤ
  pub total_resp : ℤ
  pub total_err : ℤ
  -- of the round tripper
  pub reqs : ℤ
  pub resp : ℤ
  pub errs : ℤ

abbrev pub new_stats : Stats
new_stats = record {
  pending = pos 0;
  used_conns = pos 0;
  total_req = pos 0;
  total_resp = pos 0;
  total_err = pos 0;
  reqs = pos 0;
  resp = pos 0;
  errs = pos 0;
}

-- x.Add(d) of an atomic.Int64
abbrev add_int64 : ℤ → ℤ → ℤ
add_int64 x d = to_int64 (x +ℤ d)

unfoldable pub record_request : Stats → Stats
record_request s = record s {
  pending = add_int64 s.pending (pos 1);
  total_req = add_int64 s.total_req (pos 1);
}

unfoldable pub record_response : Stats → Stats
record_response s = record s {
  used_conns = add_int64 s.used_conns (pos 1);
  total_resp = add_int64 s.total_resp (pos 1);
  pending = add_int64 s.pending (negsuc 0);
}

unfoldable pub record_error : Stats → Stats
record_error s = record s {
  total_err = add_int64 s.total_err (pos 1);
  pending = add_int64 s.pending (negsuc 0);
}

-- RoundTrip up to the call of the next round tripper, and after it with a response or an error.
-- Other requests run between the two.
unfoldable pub begin_round_trip : Stats → Stats
unfolding record_request
begin_round_trip s = record_request (record s { reqs = add_int64 s.reqs (pos 1) })

unfoldable pub end_round_trip : Bool → Stats → Stats
unfolding record_response record_error
end_round_trip true s = record_response (record s { resp = add_int64 s.resp (pos 1) })
end_round_trip false s = record_error (record s { errs = add_int64 s.errs (pos 1) })

-- The loop of UpstreamCallWithRetry, from its attempt on. `call` is what the n-th attempt returns,
-- `done` is what ends the wait behind that attempt early; the result comes with the waits made.
retry_loop : {R : Type 0} → (ℕ → Result R) → (ℕ → Option Error) → ℕ → ℕ → ℕ → Result R × List ℕ
retry_loop call done zero attempt backoff = elim (call attempt) [
  | ok r ↦ (ok r, [])
  | err e ↦ (err e, [])
]
retry_loop call done (suc left) attempt backoff = elim (call attempt) [
  | ok r ↦ (ok r, [])
  | err e ↦ elim (done attempt) [
    | some d ↦ (err d, backoff ∷ [])
    | none ↦
        let rest = retry_loop call done left (attempt + 1) (backoff * 2) in
        (rest.0, backoff ∷ rest.1)
  ]
]

-- UpstreamCallWithRetry for maxRetries ≥ 0; the backoff is a duration below 2^63 throughout.
unfoldable pub upstream_call_with_retry :
    {R : Type 0} → (ℕ → Result R) → (ℕ → Option Error) → ℕ → ℕ → Result R × List ℕ
unfolding retry_loop
upstream_call_with_retry call done max_retries backoff = retry_loop call done max_retries 0 backoff
