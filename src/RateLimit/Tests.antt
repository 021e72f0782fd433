-- ===== src/RateLimit/Tests.antt =====
-- The theorems on rate limiting at concrete requests.
use gateway_a.Prelude.{
  ◌*◌, ◌-◌, ◌+◌, ◌≤◌, leb_ℤ, ◌*ℤ◌, ◌+ℤ◌, ◌-ℤ◌, if◌then◌else◌, pos, codes, false, none, some, ◌≡◌,
  refl, inl, arith, message,
}
use gateway_a.RateLimit.{
  Bucket, Redis, int64, float64, truncated, TokenBucketRateLimiter, script, new_token_bucket,
}
use gateway_a.RateLimit.Bound.{Trace, SlowExpiry, counted, Trace-bound, Trace-admits}
use gateway_a.RateLimit.Naturals.{args}
use gateway_a.RateLimit.Composite.{CompositeRateLimiter}

-- Ten tokens a second, at most two of them, and a minute's window.
abbrev start : Bucket
start = (script (args 10 2 60000 5000) none).0

abbrev later : Bucket
later = (script (args 10 2 60000 5001) (some start)).0

two_requests : Trace 10 2 60000 5000 later 5001 2
unfolding script ◌*ℤ◌ ◌+ℤ◌ ◌-ℤ◌
two_requests = Trace.next 5001 Trace.first (omega arith) (inl refl)

slow : SlowExpiry 10 2 60000
slow = omega arith

Trace-bound_example : 2 * 1000 ≤ 2 * 1000 + (5001 - 5000) * 10
Trace-bound_example = Trace-bound slow two_requests

Trace-admits_example : counted (args 10 2 60000 5200) (some later) ≡ 1
Trace-admits_example =
    Trace-admits 5200 (some later) slow (omega arith) two_requests (omega arith) (inl refl)
      (omega arith)

-- A Redis that answers with integers, one that answers with the script's numbers, and one that fails.
abbrev integers : Redis
integers = record { failure = none; convert = λ n. int64 (truncated n) }

abbrev lively : Redis
lively = record {
  failure = none;
  convert = λ n. if leb_ℤ n.denominator (pos 1) then int64 n.numerator else float64 n;
}

abbrev limiter : Redis → TokenBucketRateLimiter
limiter redis = new_token_bucket (some redis) (pos 10) (pos 2) (pos 60000000000)

-- The limiters of the address and the tenant cannot reach Redis, and no token is left for the key.
abbrev failing : Redis
failing = record {
  failure = some (message (codes "i/o timeout"), false);
  convert = λ n. int64 (truncated n);
}

abbrev composite : CompositeRateLimiter
composite = record {
  ip_limiter = limiter failing;
  api_key_limiter = record (limiter lively) { bucket_size = pos 0 };
  tenant_limiter = limiter failing;
  redis_prefix = codes "ratelimit:";
  default_limit = pos 100;
}
