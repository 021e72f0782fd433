-- ===== src/RateLimit/Replies.antt =====
-- What Check of middleware/ratelimit/token_bucket.go makes of the script's reply.
use gateway_a.Prelude.{ℤ, pos, Option, none, some, [], ◌∷◌, ◌≡◌, ap, arith}
use gateway_a.RateLimit.{
  Number, Bucket, Redis, GoValue, int64, TokenBucketRateLimiter, panicked, parse_reply, check,
  script, arguments,
}

-- As Redis documents it, a number of a script's reply arrives as an integer.
abbrev pub ConvertsToIntegers : Redis → Type 0
ConvertsToIntegers redis = (n : Number) → (z : ℤ) × (redis.convert n ≡ int64 z)

parse_reply-second :
    (limit : ℤ) (a b c d : GoValue) (z : ℤ)
    → b ≡ int64 z
    → parse_reply limit (a ∷ b ∷ c ∷ d ∷ []) ≡ panicked
unfolding parse_reply
parse_reply-second limit a b c d z h = ground arith

-- With a Redis that answers, and converts the script's numbers to integers as documented, Check
-- writes the bucket and panics, for every key and at every moment.
pub check-integers :
    (l : TokenBucketRateLimiter) (redis : Redis) (now : ℤ) (found : Option Bucket)
    → l.client ≡ some redis
    → redis.failure ≡ none
    → ConvertsToIntegers redis
    → check l now found ≡ (some (script (arguments l now) found).0, panicked)
unfolding check script
check-integers l redis now found c f ints =
    let b = script (arguments l now) found in
    let second : Number = record { numerator = b.0.tokens; denominator = pos 1000 } in
    let (z, e) = ints second in
    let parsed = parse_reply-second l.bucket_size _ (redis.convert second) _ _ z e in
    rw (c, f) (ap (λ o. (some b.0, o)) parsed)
