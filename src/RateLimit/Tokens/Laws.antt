-- ===== src/RateLimit/Tokens/Laws.antt =====
-- What GetTokens of middleware/ratelimit/token_bucket.go leaves behind.
use gateway_a.Prelude.{ℤ, pos, none, some, if◌then◌else◌, wrapped, ◌≡◌, refl, ap, codes}
use gateway_a.RateLimit.{Bucket, Redis, Number, TokenBucketRateLimiter, failed, panicked}
use gateway_a.RateLimit.Replies.{ConvertsToIntegers}
use gateway_a.RateLimit.Tokens.{
  tokens_script, refreshed, same_time, redis_nil, float_value, get_tokens,
}

-- With a Redis that answers, and converts the script's numbers to integers as documented, GetTokens
-- never returns a number: it fails for a key without a bucket, and panics for one with a bucket.
pub get_tokens-integers :
    (l : TokenBucketRateLimiter) (redis : Redis) (now last_update : ℤ)
    → l.client ≡ some redis
    → redis.failure ≡ none
    → ConvertsToIntegers redis
    → ((get_tokens l now last_update none).1
        ≡ failed (wrapped (codes "get tokens failed: ") redis_nil))
      × ((b : Bucket) → (get_tokens l now last_update (some b)).1 ≡ panicked)
unfolding get_tokens tokens_script
get_tokens-integers l redis now last_update c f ints = (
  rw (c, f) refl,
  λ b.
      let n : Number = record {
        numerator =
            (if same_time b.last_update last_update
              then b
              else refreshed l.rate l.bucket_size now b).tokens;
        denominator = pos 1000;
      } in
      rw (c, f) (ap float_value (ints n).1),
)
