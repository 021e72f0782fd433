-- ===== src/RateLimit/Composite/Laws.antt =====
-- When the composite limiter of middleware/ratelimit/composite.go lets a request through, and what
-- it says otherwise.
use gateway_a.Prelude.{
  ℤ, Text, Bool, false, not, ◌||◌, Option, none, some, if◌then◌else◌, ◌≡◌, ◌≢◌, refl, ◌∙◌, arith,
  ap, lookup, lookup-insert, text_eq,
}
use gateway_a.RateLimit.{
  Bucket, TokenBucketRateLimiter, RateLimitResult, Outcome, done, failed, panicked, check,
  redis_key,
}
use gateway_a.RateLimit.Composite.{
  Dimension, ip, api_key, tenant, CompositeRateLimiter, CompositeRateLimitResult, Buckets,
  check_key, put, check_all, noted, concluded, dimension, empty_result, note,
}

put-lookup :
    (key other : Text) (b : Option Bucket) (buckets : Buckets)
    → key ≢ other
    → lookup other (put key b buckets) ≡ lookup other buckets
put-lookup key other none buckets h = refl
put-lookup key other (some b) buckets h =
    lookup-insert key other b buckets ∙ ground (arith, text_eq.beq_iff key other)

-- A check writes under its own key only: the hashes of all other clients stay as they are.
pub check_key-lookup :
    (l : TokenBucketRateLimiter) (key other : Text) (now : ℤ) (buckets : Buckets)
    → redis_key l key ≢ other
    → lookup other (check_key l key now buckets).0 ≡ lookup other buckets
unfolding check_key
check_key-lookup l key other now buckets h =
    put-lookup (redis_key l key) other (check l now (lookup (redis_key l key) buckets)).0 buckets h

-- An outcome that blocks the request; an error of a limiter does not.
abbrev pub blocks : Outcome RateLimitResult → Bool
blocks (done r) = not r.allowed
blocks _ = false

-- The last of the dimensions that blocks.
abbrev pub last_blocking :
    Outcome RateLimitResult → Outcome RateLimitResult → Outcome RateLimitResult → Option Dimension
last_blocking i a t =
    if blocks t
    then some tenant
    else if blocks a
    then some api_key
    else if blocks i
    then some ip
    else none

abbrev note_if :
    Dimension → Outcome RateLimitResult → CompositeRateLimitResult → CompositeRateLimitResult
note_if d (done r) c = note d r c
note_if d _ c = c

abbrev result_of :
    Outcome RateLimitResult
    → Outcome RateLimitResult
    → Outcome RateLimitResult
    → CompositeRateLimitResult
result_of i a t = concluded (note_if tenant t (note_if api_key a (note_if ip i empty_result)))

noted-note_if :
    (d : Dimension) (o : Outcome RateLimitResult) (c : CompositeRateLimitResult)
    → o ≢ panicked
    → noted d o c ≡ done (note_if d o c)
noted-note_if d (done r) c h = refl
noted-note_if d (failed e) c h = refl
noted-note_if d panicked c h = absurd (h refl)

-- One dimension whose check does not panic.
dimension-done :
    (d : Dimension) (l : TokenBucketRateLimiter) (key : Text) (at : ℤ) (b b1 : Buckets)
    (o : Outcome RateLimitResult) (c : CompositeRateLimitResult)
    → check_key l key at b ≡ (b1, o)
    → o ≢ panicked
    → dimension d l (some key) at (b, done c) ≡ (b1, done (note_if d o c))
dimension-done d l key at b b1 o c h n =
    ap (λ p. (p.0, noted d p.1 c)) h ∙ ap (λ x. (b1, x)) (noted-note_if d o c n)

-- Three checks that do not panic, made on one store after the other, make the result.
check_all-result_of :
    (l : CompositeRateLimiter) (k1 k2 k3 : Text) (now : Dimension → ℤ) (b0 b1 b2 b3 : Buckets)
    (i a t : Outcome RateLimitResult)
    → check_key l.ip_limiter k1 (now ip) b0 ≡ (b1, i)
    → check_key l.api_key_limiter k2 (now api_key) b1 ≡ (b2, a)
    → check_key l.tenant_limiter k3 (now tenant) b2 ≡ (b3, t)
    → i ≢ panicked
    → a ≢ panicked
    → t ≢ panicked
    → check_all l (record { ip = some k1; api_key = some k2; tenant = some k3 }) now b0
      ≡ (b3, done (result_of i a t))
unfolding check_all
check_all-result_of l k1 k2 k3 now b0 b1 b2 b3 i a t h1 h2 h3 n1 n2 n3 = rw (
  dimension-done ip l.ip_limiter k1 (now ip) b0 b1 i empty_result h1 n1,
  dimension-done api_key l.api_key_limiter k2 (now api_key) b1 b2 a (note_if ip i empty_result) h2
      n2,
  dimension-done tenant l.tenant_limiter k3 (now tenant) b2 b3 t
      (note_if api_key a (note_if ip i empty_result)) h3 n3,
)

result_of-reason :
    (i a t : Outcome RateLimitResult)
    → ((result_of i a t).reason ≡ last_blocking i a t)
      × ((result_of i a t).allowed ≡ not (blocks i || (blocks a || blocks t)))
result_of-reason i a t = ground arith

-- Let all three dimensions of the composite limiter have a key, and let each check, made on the
-- hashes that the one before leaves, answer or report an error without a panic. Then Check never
-- reports an error, leaves the hashes of the third check, lets the request through exactly where no
-- check answered that it is over its limit (an error does not stop it), and names the last dimension
-- over its limit as the reason.
pub check_all-blocks :
    (l : CompositeRateLimiter) (k1 k2 k3 : Text) (now : Dimension → ℤ) (b0 b1 b2 b3 : Buckets)
    (i a t : Outcome RateLimitResult)
    → check_key l.ip_limiter k1 (now ip) b0 ≡ (b1, i)
    → check_key l.api_key_limiter k2 (now api_key) b1 ≡ (b2, a)
    → check_key l.tenant_limiter k3 (now tenant) b2 ≡ (b3, t)
    → i ≢ panicked
    → a ≢ panicked
    → t ≢ panicked
    → (c : CompositeRateLimitResult) × (check_all l
          (record { ip = some k1; api_key = some k2; tenant = some k3 })
          now
          b0
        ≡ (b3, done c))
      × (c.allowed ≡ not (blocks i || (blocks a || blocks t)))
      × (c.reason ≡ last_blocking i a t)
check_all-blocks l k1 k2 k3 now b0 b1 b2 b3 i a t h1 h2 h3 n1 n2 n3 = (
  result_of i a t,
  check_all-result_of l k1 k2 k3 now b0 b1 b2 b3 i a t h1 h2 h3 n1 n2 n3,
  (result_of-reason i a t).1,
  (result_of-reason i a t).0,
)
