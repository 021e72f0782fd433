-- ===== src/RateLimit/Tokens.antt =====
-- GetTokens and Reset of middleware/ratelimit/token_bucket.go, and GetRateLimitStatus of
-- middleware/ratelimit/composite.go, on the hashes of Redis. GetTokens reads the clock twice. Its Lua script
-- computes in doubles; here the tokens are exact thousandths, without the rounding of a double.
pub mod Laws
use gateway_a.Prelude.{
  ℤ, pos, ltb_ℤ, leb_ℤ, ◌+ℤ◌, ◌-ℤ◌, ◌*ℤ◌, Text, text_eq, codes, Bool, true, false, ◌&&◌, Option,
  none, some, List, [], ◌∷◌, lookup, insert, delete, if◌then◌else◌, Error, message, wrapped,
}
use gateway_a.RateLimit.{
  Number, Bucket, Redis, GoValue, int64, float64, other, TokenBucketRateLimiter, Outcome, done,
  failed, panicked, min_ℤ, thousand, truncated, redis_key,
}
use gateway_a.RateLimit.Composite.{
  CompositeRateLimiter, CompositeRateLimitResult, Buckets, Dimension, ip, api_key, tenant,
  empty_result,
}

abbrev pub same_time : ℤ → ℤ → Bool
same_time a b = leb_ℤ a b && leb_ℤ b a

-- The refill of the script of GetTokens.
abbrev pub refreshed : (rate capacity now : ℤ) → Bucket → Bucket
refreshed rate capacity now b = record {
  tokens = min_ℤ (capacity *ℤ thousand) (b.tokens +ℤ (now -ℤ b.last_update) *ℤ rate);
  last_update = now;
}

abbrev pub tokens_of : Bucket → Option Number
tokens_of b = some (record { numerator = b.tokens; denominator = thousand })

abbrev pub with_tokens : Bucket → Option Bucket × Option Number
with_tokens b = (some b, tokens_of b)

-- The script of GetTokens: the hash afterwards, and its reply, which may be nil.
unfoldable pub tokens_script :
    (rate capacity now last_update : ℤ) → Option Bucket → Option Bucket × Option Number
tokens_script rate capacity now last_update none = (none, none)
tokens_script rate capacity now last_update (some b) =
    with_tokens (if same_time b.last_update last_update then b else refreshed rate capacity now b)

-- redis.Nil, the error of go-redis for a nil reply.
abbrev pub redis_nil : Error
redis_nil = message (codes "redis: nil")

abbrev pub not_read : {A : Type 0} → Error → Outcome A
not_read e = failed (wrapped (codes "get tokens failed: ") e)

abbrev pub float_value : GoValue → Outcome Number
float_value (float64 x) = done x
float_value _ = panicked

abbrev pub read_tokens : Redis → Option Number → Outcome Number
read_tokens redis none = not_read redis_nil
read_tokens redis (some n) = float_value (redis.convert n)

abbrev pub run_tokens :
    Redis
    → Option (Error × Bool)
    → Option Bucket
    → Option Bucket × Option Number
    → Option Bucket × Outcome Number
run_tokens redis (some (e, ran)) found (written, reply) =
    (if ran then written else found, not_read e)
run_tokens redis none found (written, reply) = (written, read_tokens redis reply)

-- GetTokens.
unfoldable pub get_tokens :
    TokenBucketRateLimiter → (now last_update : ℤ) → Option Bucket → Option Bucket × Outcome Number
unfolding tokens_script
get_tokens l now last_update found = elim l.client [
  | none ↦ (found, panicked)
  | some redis ↦
      run_tokens redis redis.failure found
        (tokens_script l.rate l.bucket_size now last_update found)
]

abbrev deleted : Option (Error × Bool) → Option Bucket → Option Bucket × Outcome (Unit {0})
deleted (some (e, ran)) found = (if ran then none else found, failed e)
deleted none found = (none, done tt)

-- Reset.
unfoldable pub reset : TokenBucketRateLimiter → Option Bucket → Option Bucket × Outcome (Unit {0})
reset l found = elim l.client [
  | none ↦ (found, panicked)
  | some redis ↦ deleted redis.failure found
]

-- What a dimension of the status shows of its tokens, where there are any.
abbrev pub shown :
    CompositeRateLimiter → Dimension → Number → CompositeRateLimitResult → CompositeRateLimitResult
shown c ip n r = record r { ip_remaining = truncated n; ip_limit = c.default_limit }
shown c api_key n r = record r {
  api_key_remaining = truncated n;
  api_key_limit = c.api_key_limiter.bucket_size;
}
shown c tenant n r = record r {
  tenant_remaining = truncated n;
  tenant_limit = c.tenant_limiter.bucket_size;
}

-- x > 0, for a number with a positive denominator.
abbrev pub is_positive : Number → Bool
is_positive n = ltb_ℤ (pos 0) n.numerator

-- An error of GetTokens is passed over.
abbrev pub status_of :
    CompositeRateLimiter
    → Dimension
    → CompositeRateLimitResult
    → Outcome Number
    → Outcome CompositeRateLimitResult
status_of c d r (done n) = done (if is_positive n then shown c d n r else r)
status_of c d r (failed e) = done r
status_of c d r panicked = panicked

abbrev put : Text → Option Bucket → Buckets → Buckets
put key none buckets = buckets
put key (some b) buckets = insert key b buckets

abbrev pub Status : Type 0
Status = Buckets × Outcome CompositeRateLimitResult

abbrev pub next_status :
    CompositeRateLimiter
    → Dimension
    → TokenBucketRateLimiter
    → (now last_update : ℤ) → Option Text
    → Status
    → Status
next_status c d l now last_update none s = s
next_status c d l now last_update (some key) (buckets, failed e) = (buckets, failed e)
next_status c d l now last_update (some key) (buckets, panicked) = (buckets, panicked)
next_status c d l now last_update (some key) (buckets, done r) =
    let (b, outcome) = get_tokens l now last_update (lookup (redis_key l key) buckets) in
    (put (redis_key l key) b buckets, status_of c d r outcome)

-- GetRateLimitStatus, on the keys of the three functions, of which any may be missing.
unfoldable pub get_rate_limit_status :
    CompositeRateLimiter
    → (now last_update : ℤ) → (ip_key api_key_key tenant_key : Option Text) → Buckets
    → Status
unfolding get_tokens
get_rate_limit_status c now last_update ip_key api_key_key tenant_key buckets =
    next_status c tenant c.tenant_limiter now last_update tenant_key (
      next_status c api_key c.api_key_limiter now last_update api_key_key
        (next_status c ip c.ip_limiter now last_update ip_key (buckets, done empty_result)))
