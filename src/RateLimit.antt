-- ===== src/RateLimit.antt =====
-- middleware/ratelimit/token_bucket.go: the Lua script of the token bucket, and Check, which runs it
-- and reads its reply. Redis and its client are not part of the repository: `Redis` says whether a
-- call fails, and how a number of the script's reply reaches Go.
pub mod Naturals
pub mod Bound
pub mod Replies
pub mod Middleware
pub mod Composite
pub mod Tokens
mod Tests
use gateway_a.Prelude.{
  ℕ, suc, ◌+◌, ◌-◌, ◌/◌, ℤ, pos, negsuc, ◌+ℤ◌, ◌-ℤ◌, ◌*ℤ◌, leb_ℤ, to_int64, Text, codes, Bool, true,
  false, ◌&&◌, Option, none, some, List, [], ◌∷◌, map, ◌++◌, if◌then◌else◌, Error, wrapped,
}

-- A number of Lua, as a quotient of integers.
pub record Number : Type 0 where
  pub numerator : ℤ
  pub denominator : ℤ

abbrev negate : ℕ → ℤ
negate n = pos 0 -ℤ pos n

-- Division that rounds toward zero, as `int64(x)` does of a quotient.
unfoldable pub quotient : ℤ → ℤ → ℤ
quotient (pos a) (pos b) = pos (a / b)
quotient (pos a) (negsuc b) = negate (a / suc b)
quotient (negsuc a) (pos b) = negate (suc a / b)
quotient (negsuc a) (negsuc b) = pos (suc a / suc b)

abbrev pub truncated : Number → ℤ
truncated n = quotient n.numerator n.denominator

-- The hash under a key of Redis. The tokens are counted in thousandths: with times in milliseconds
-- and a whole rate per second the script never makes a smaller part. Lua computes the same numbers in
-- doubles; their rounding is left out.
pub record Bucket : Type 0 where
  pub tokens : ℤ
  pub last_update : ℤ

-- ARGV.
pub record Arguments : Type 0 where
  pub rate : ℤ
  pub capacity : ℤ
  pub now : ℤ
  pub window : ℤ
  pub requested : ℤ

abbrev pub thousand : ℤ
thousand = pos 1000

-- math.min
abbrev pub min_ℤ : ℤ → ℤ → ℤ
min_ℤ a b = if leb_ℤ a b then a else b

-- What the script starts from: a full bucket where the key is absent.
abbrev pub or_full : Arguments → Option Bucket → Bucket
or_full a none = record { tokens = a.capacity *ℤ thousand; last_update = a.now }
or_full a (some b) = b

-- The tokens before the request is looked at.
unfoldable pub refilled : Arguments → Bucket → ℤ
refilled a b =
    let elapsed = a.now -ℤ b.last_update in
    min_ℤ (a.capacity *ℤ thousand) (b.tokens +ℤ elapsed *ℤ a.rate)

unfoldable pub is_allowed : Arguments → Bucket → Bool
unfolding refilled
is_allowed a b = leb_ℤ (a.requested *ℤ thousand) (refilled a b)

-- The bucket that HMSET writes.
unfoldable pub taken : Arguments → Bucket → Bucket
unfolding is_allowed refilled
taken a b = record {
  tokens = if is_allowed a b then refilled a b -ℤ a.requested *ℤ thousand else refilled a b;
  last_update = a.now;
}

abbrev one_if : Bool → ℤ
one_if b = if b then pos 1 else pos 0

abbrev whole : ℤ → Number
whole n = record { numerator = n; denominator = pos 1 }

-- { allowed, tokens, resetAt, retryAfter }, from the bucket before and after.
abbrev pub reply : Arguments → Bool → Bucket → List Number
reply a allowed b =
    whole (one_if allowed)
    ∷ record { numerator = b.tokens; denominator = thousand }
    ∷ record {
      numerator = a.now *ℤ a.rate +ℤ (a.capacity *ℤ thousand -ℤ b.tokens);
      denominator = a.rate;
    }
    ∷ (if allowed
        then whole (pos 0)
        else record { numerator = a.requested *ℤ thousand -ℤ b.tokens; denominator = a.rate })
    ∷ []

-- The script, on the hash that it finds.
unfoldable pub script : Arguments → Option Bucket → Bucket × List Number
unfolding taken is_allowed
script a found = let b = or_full a found in (taken a b, reply a (is_allowed a b) (taken a b))

-- The argument of EXPIRE, math.ceil(window / 1000), for a window that is not negative.
abbrev pub expire_seconds : ℕ → ℕ
expire_seconds window = (window + 999) / 1000

-- An interface{} value of the reply.
pub data GoValue : Type 0 where
  int64 : ℤ → GoValue
  float64 : Number → GoValue
  other : GoValue

pub record Redis : Type 0 where
  -- the error of the call, and whether the script ran nevertheless
  pub failure : Option (Error × Bool)
  pub convert : Number → GoValue

pub record TokenBucketRateLimiter : Type 0 where
  -- nil where no client was given
  pub client : Option Redis
  pub rate : ℤ
  pub bucket_size : ℤ
  -- in nanoseconds
  pub default_window : ℤ
  pub redis_prefix : Text

-- NewTokenBucketRateLimiter.
abbrev pub new_token_bucket : Option Redis → ℤ → ℤ → ℤ → TokenBucketRateLimiter
new_token_bucket client rate bucket_size window = record {
  client = client;
  rate = rate;
  bucket_size = bucket_size;
  default_window = window;
  redis_prefix = codes "ratelimit:";
}

-- SetPrefix.
abbrev pub set_prefix : Text → TokenBucketRateLimiter → TokenBucketRateLimiter
set_prefix prefix l = record l { redis_prefix = prefix }

-- The key of Redis for a key.
abbrev pub redis_key : TokenBucketRateLimiter → Text → Text
redis_key l key = l.redis_prefix ++ key

pub record RateLimitResult : Type 0 where
  pub allowed : Bool
  pub remaining : ℤ
  -- in milliseconds
  pub reset_at : ℤ
  pub limit : ℤ
  -- in nanoseconds
  pub retry_after : ℤ
  pub current_tokens : Number

-- What a call that may panic does.
pub data Outcome (A : Type 0) : Type 0 where
  done : A → Outcome A
  failed : Error → Outcome A
  panicked : Outcome A

-- From `results := result.([]interface{})` on: a type assertion that fails panics.
unfoldable pub parse_reply : ℤ → List GoValue → Outcome RateLimitResult
parse_reply limit (int64 a ∷ float64 tokens ∷ float64 reset ∷ float64 retry ∷ _) = done (record {
  allowed = leb_ℤ a (pos 1) && leb_ℤ (pos 1) a;
  remaining = truncated tokens;
  reset_at = truncated reset;
  limit = limit;
  retry_after = to_int64 (truncated retry *ℤ pos 1000000);
  current_tokens = tokens;
})
parse_reply limit _ = panicked

abbrev pub arguments : TokenBucketRateLimiter → ℤ → Arguments
arguments l now = record {
  rate = l.rate;
  capacity = l.bucket_size;
  now = now;
  window = quotient l.default_window (pos 1000000);
  requested = pos 1;
}

abbrev after_failure :
    Error → Bool → Option Bucket → Bucket → Option Bucket × Outcome RateLimitResult
after_failure e ran found written =
    (if ran then some written else found, failed (wrapped (codes "rate limit check failed: ") e))

abbrev run_script :
    TokenBucketRateLimiter → ℤ → Option Bucket → Redis → Option Bucket × Outcome RateLimitResult
run_script l now found redis =
    let (b, numbers) = script (arguments l now) found in
    elim redis.failure [
      | some (e, ran) ↦ after_failure e ran found b
      | none ↦ (some b, parse_reply l.bucket_size (map redis.convert numbers))
    ]

-- Check, on the hash under its key: the hash afterwards, and the result.
unfoldable pub check :
    TokenBucketRateLimiter → ℤ → Option Bucket → Option Bucket × Outcome RateLimitResult
unfolding script quotient
check l now found = elim l.client [
  | none ↦ (found, panicked)
  | some redis ↦ run_script l now found redis
]

-- CheckWithConfig.
unfoldable pub check_with_config :
    TokenBucketRateLimiter → ℤ → ℤ → ℤ → ℤ → Option Bucket → Option Bucket × Outcome RateLimitResult
unfolding check
check_with_config l rate capacity window now found =
    check (record l { rate = rate; bucket_size = capacity; default_window = window }) now found
