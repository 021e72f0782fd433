-- ===== src/RateLimit/Composite.antt =====
-- middleware/ratelimit/composite.go: three limiters for one request, and their middleware.
pub mod Laws
pub mod Middleware
pub mod Default
use gateway_a.Prelude.{
  ℕ, ℤ, pos, negsuc, ltb_ℤ, ◌+◌, itoa, Text, text_eq, codes, trim_prefix, Bool, true, false, not,
  ◌&&◌, ◌||◌, Option, none, some, List, [], ◌∷◌, ◌++◌, if◌then◌else◌, ◌==◌, lookup, insert, Error,
}
use gateway_a.Http.{Action, header, json, next, custom_response, text, number}
use gateway_a.RateLimit.{
  Bucket, Redis, TokenBucketRateLimiter, RateLimitResult, Outcome, done, failed, panicked, check,
  quotient, redis_key, set_prefix,
}

-- What the key functions read of a request.
pub record Request : Type 0 where
  pub client_ip : Text
  pub authorization : Text
  pub tenant_header : Text

-- A key function, on the tenant that the context holds and the request, which may be nil.
abbrev pub KeyFunc : Type 0
KeyFunc = Option Text → Option Request → Text

unfoldable pub default_ip_key : KeyFunc
default_ip_key tenant none = codes "ip:unknown"
default_ip_key tenant (some r) = codes "ip:" ++ r.client_ip

unfoldable pub default_api_key_key : KeyFunc
unfolding trim_prefix
default_api_key_key tenant none = codes "apikey:none"
default_api_key_key tenant (some r) =
    if r.authorization == []
    then codes "apikey:none"
    else codes "apikey:" ++ trim_prefix r.authorization (codes "Bearer ")

abbrev tenant_of_header : Text → Text
tenant_of_header [] = codes "tenant:anonymous"
tenant_of_header (c ∷ t) = codes "tenant:" ++ (c ∷ t)

abbrev tenant_of_request : Option Request → Text
tenant_of_request none = codes "tenant:anonymous"
tenant_of_request (some r) = tenant_of_header r.tenant_header

unfoldable pub default_tenant_key : KeyFunc
default_tenant_key (some (c ∷ t)) request = codes "tenant:" ++ (c ∷ t)
default_tenant_key _ request = tenant_of_request request

pub data Dimension : Type 0 where
  ip api_key tenant : Dimension

pub record CompositeRateLimiter : Type 0 where
  pub ip_limiter : TokenBucketRateLimiter
  pub api_key_limiter : TokenBucketRateLimiter
  pub tenant_limiter : TokenBucketRateLimiter
  pub redis_prefix : Text
  pub default_limit : ℤ

-- SetPrefix of the composite limiter, whose own prefix stays.
abbrev pub set_prefix_of_all : Text → CompositeRateLimiter → CompositeRateLimiter
set_prefix_of_all prefix c = record c {
  ip_limiter = set_prefix prefix c.ip_limiter;
  api_key_limiter = set_prefix prefix c.api_key_limiter;
  tenant_limiter = set_prefix prefix c.tenant_limiter;
}

pub record CompositeRateLimitResult : Type 0 where
  pub allowed : Bool
  pub ip_remaining : ℤ
  pub api_key_remaining : ℤ
  pub tenant_remaining : ℤ
  pub ip_limit : ℤ
  pub api_key_limit : ℤ
  pub tenant_limit : ℤ
  -- in nanoseconds
  pub retry_after : ℤ
  -- "" where nothing blocked
  pub reason : Option Dimension

-- The hashes of Redis by key.
abbrev pub Buckets : Type 0
Buckets = List (Text × Bucket)

abbrev pub put : Text → Option Bucket → Buckets → Buckets
put key none buckets = buckets
put key (some b) buckets = insert key b buckets

-- Check of one limiter on the key of its dimension; a missing key function is `none`.
unfoldable pub check_key :
    TokenBucketRateLimiter → Text → ℤ → Buckets → Buckets × Outcome RateLimitResult
unfolding check
check_key l key now buckets =
    let (b, outcome) = check l now (lookup (redis_key l key) buckets) in
    (put (redis_key l key) b buckets, outcome)

abbrev pub empty_result : CompositeRateLimitResult
empty_result = record {
  allowed = true;
  ip_remaining = pos 0;
  api_key_remaining = pos 0;
  tenant_remaining = pos 0;
  ip_limit = pos 0;
  api_key_limit = pos 0;
  tenant_limit = pos 0;
  retry_after = pos 0;
  reason = none;
}

-- What a result of a dimension's check writes into the composite one; `reason` is the variable
-- blockedBy.
abbrev pub note : Dimension → RateLimitResult → CompositeRateLimitResult → CompositeRateLimitResult
note ip r c = record c {
  ip_remaining = r.remaining;
  ip_limit = r.limit;
  reason = if not r.allowed then some ip else c.reason;
}
note api_key r c = record c {
  api_key_remaining = r.remaining;
  api_key_limit = r.limit;
  reason = if not r.allowed then some api_key else c.reason;
}
note tenant r c = record c {
  tenant_remaining = r.remaining;
  tenant_limit = r.limit;
  reason = if not r.allowed then some tenant else c.reason;
}

-- After a dimension's check; an error is logged and passed over.
abbrev pub noted :
    Dimension
    → Outcome RateLimitResult
    → CompositeRateLimitResult
    → Outcome CompositeRateLimitResult
noted d (done r) c = done (note d r c)
noted d (failed e) c = done c
noted d panicked c = panicked

abbrev pub Progress : Type 0
Progress = Buckets × Outcome CompositeRateLimitResult

-- One dimension: nothing is done behind a panic, or without a key.
abbrev pub dimension : Dimension → TokenBucketRateLimiter → Option Text → ℤ → Progress → Progress
dimension d l none now p = p
dimension d l (some key) now (buckets, failed e) = (buckets, failed e)
dimension d l (some key) now (buckets, panicked) = (buckets, panicked)
dimension d l (some key) now (buckets, done c) =
    let (after, outcome) = check_key l key now buckets in (after, noted d outcome c)

abbrev pub concluded : CompositeRateLimitResult → CompositeRateLimitResult
concluded c = elim c.reason [
  | none ↦ c
  | some d ↦ record c { allowed = false; retry_after = pos 1000000000 }
]

abbrev pub conclude : Progress → Progress
conclude (buckets, done c) = (buckets, done (concluded c))
conclude (buckets, failed e) = (buckets, failed e)
conclude (buckets, panicked) = (buckets, panicked)

-- The keys of the three dimensions, where there is a key function.
pub record Keys : Type 0 where
  pub ip : Option Text
  pub api_key : Option Text
  pub tenant : Option Text

-- Check of the composite limiter, with its three readings of the clock.
unfoldable pub check_all : CompositeRateLimiter → Keys → (Dimension → ℤ) → Buckets → Progress
unfolding check_key
check_all l keys now buckets = conclude (
    dimension tenant l.tenant_limiter keys.tenant (now tenant) (
      dimension api_key l.api_key_limiter keys.api_key (now api_key)
        (dimension ip l.ip_limiter keys.ip (now ip) (buckets, done empty_result))))
