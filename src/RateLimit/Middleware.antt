-- ===== src/RateLimit/Middleware.antt =====
-- middleware/ratelimit/middleware.go: the handlers that Middleware and MiddlewareWithRedis return,
-- on the hash under the request's key.
pub mod Laws
use gateway_a.Prelude.{
  ℕ, suc, ◌+◌, ◌/◌, ℤ, pos, negsuc, ltb_ℤ, leb_ℤ, itoa, Text, codes, Bool, true, false, not, ◌&&◌,
  Option, none, some, List, [], ◌∷◌, ◌++◌, if◌then◌else◌, Error, message,
}
use gateway_a.Http.{Action, header, json, next, custom_response, text, number}
use gateway_a.RateLimit.{
  Bucket, Redis, TokenBucketRateLimiter, RateLimitResult, Outcome, done, failed, panicked, check,
  new_token_bucket, quotient,
}

pub record MiddlewareOptions : Type 0 where
  pub rate : ℤ
  pub bucket_size : ℤ
  pub window : ℤ
  -- whether a response of the user's own is set
  pub custom_response : Bool

abbrev pub default_options : MiddlewareOptions
default_options = record {
  rate = pos 10;
  bucket_size = pos 100;
  window = pos 60000000000;
  custom_response = false;
}

abbrev pub second : ℤ
second = pos 1000000000

-- t.Unix() of a time in milliseconds.
abbrev unix : ℤ → ℤ
unix (pos ms) = pos (ms / 1000)
unix (negsuc ms) = negsuc (ms / 1000)

abbrev is_zero : ℤ → Bool
is_zero z = leb_ℤ z (pos 0) && leb_ℤ (pos 0) z

-- The variable `retryAfter`, a Duration.
abbrev pub retry_duration : ℤ → ℤ
retry_duration retry_after =
    let seconds = quotient retry_after second in if is_zero seconds then pos 1 else seconds

abbrev pub limit_headers : RateLimitResult → List Action
limit_headers r =
    header "X-RateLimit-Limit" (itoa r.limit)
    ∷ header "X-RateLimit-Remaining" (itoa r.remaining)
    ∷ header "X-RateLimit-Reset" (itoa (unix r.reset_at))
    ∷ []

abbrev too_many : Bool → RateLimitResult → Action
too_many custom r =
    if custom
    then custom_response
    else json 429 (
        ("error", text (codes "rate limit exceeded"))
        ∷ ("retry_after", number (retry_duration r.retry_after))
        ∷ ("limit", number r.limit)
        ∷ ("remaining", number (pos 0))
        ∷ [])

-- What the handler answers to a result of Check.
unfoldable pub respond : Bool → RateLimitResult → List Action
unfolding quotient
respond custom r =
    limit_headers r
    ++ (if not r.allowed
        then header "Retry-After" (itoa (quotient (retry_duration r.retry_after) second))
          ∷ too_many custom r
          ∷ []
        else next ∷ [])

-- The handler; `panicked` is a panic in it.
abbrev pub answer : Bool → Outcome RateLimitResult → Outcome (List Action)
answer custom (done r) = done (respond custom r)
answer custom (failed e) = done (next ∷ [])
answer custom panicked = panicked

abbrev pub limiter_of : Option Redis → MiddlewareOptions → TokenBucketRateLimiter
limiter_of client options = new_token_bucket client options.rate options.bucket_size options.window

-- MiddlewareWithRedis: the handler of a limiter with this client. Given anything but a client
-- wrapper it falls back to Middleware.
unfoldable pub middleware_with_redis :
    Option Redis → MiddlewareOptions → ℤ → Option Bucket → Option Bucket × Outcome (List Action)
unfolding check
middleware_with_redis client options now found =
    let (b, outcome) = check (limiter_of client options) now found in
    (b, answer options.custom_response outcome)

-- Middleware: the limiter has no client.
unfoldable pub middleware :
    MiddlewareOptions → ℤ → Option Bucket → Option Bucket × Outcome (List Action)
unfolding middleware_with_redis
middleware options now found = middleware_with_redis none options now found
