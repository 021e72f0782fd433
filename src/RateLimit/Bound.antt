-- ===== src/RateLimit/Bound.antt =====
-- How many requests the token bucket of middleware/ratelimit/token_bucket.go admits for one key.
use native.Mathlib.Nat.{mul-le-mul_right}
use gateway_a.Prelude.{
  ℕ, ◌+◌, ◌-◌, ◌*◌, ◌≤◌, leb, true, Option, none, some, if◌then◌else◌, ◌≡◌, refl, ap, ◌∙◌, ◌⊎◌, inl,
  inr, arith,
}
use gateway_a.RateLimit.{Bucket, Arguments, script, is_allowed, expire_seconds, or_full}
use gateway_a.RateLimit.Naturals.{
  args, bucket, pos-mul, refill, admitted, left, is_allowed-bucket, taken-bucket,
}

-- 1 where the script admits the request.
abbrev pub counted : Arguments → Option Bucket → ℕ
counted a found = if is_allowed a (or_full a found) then 1 else 0

-- What is under the key at a moment: the bucket last written, or nothing once it has expired.
abbrev pub Found : ℕ → Bucket → ℕ → ℕ → Option Bucket → Type 0
Found window b last now found =
    (found ≡ some b) ⊎ ((found ≡ none) × (last + 1000 * expire_seconds window ≤ now))

-- Requests for one key from its first one on, by a clock that does not run back: the bucket and the
-- moment of the last one, and how many were admitted.
pub data Trace (rate capacity window start : ℕ) : Bucket → ℕ → ℕ → Type 0 where
  first :
      Trace rate capacity window start
        (script (args rate capacity window start) none).0
        start
        (0 + counted (args rate capacity window start) none)
  next :
      {b : Bucket} {last k : ℕ} {found : Option Bucket} (now : ℕ)
      → Trace rate capacity window start b last k
      → last ≤ now
      → Found window b last now found
      → Trace rate capacity window start
          (script (args rate capacity window now) found).0
          now
          (k + counted (args rate capacity window now) found)

-- What holds after a request at `last`, of k admitted ones since `start`.
pub record Within (rate capacity start : ℕ) (b : Bucket) (last k : ℕ) : Type 0 where
  pub tokens : ℕ
  pub held : b ≡ bucket tokens last
  pub later : start ≤ last
  pub spent : k * 1000 + tokens ≤ capacity * 1000 + (last - start) * rate

spend : (k r m : ℕ) → k * 1000 + r ≤ m → (k + admitted r) * 1000 + left r ≤ m
spend k r m h = ground arith

-- One more request on a bucket that is worth at most `limit`.
script-bucket :
    (rate capacity window start now tokens last k : ℕ) (found : Option Bucket)
    → or_full (args rate capacity window now) found ≡ bucket tokens last
    → last ≤ now
    → start ≤ now
    → k * 1000 + refill rate capacity now tokens last ≤ capacity * 1000 + (now - start) * rate
    → Within rate capacity start
        (script (args rate capacity window now) found).0
        now
        (k + counted (args rate capacity window now) found)
unfolding script
script-bucket rate capacity window start now tokens last k found e h l q = record {
  tokens = left (refill rate capacity now tokens last);
  held = rw e (taken-bucket rate capacity window now tokens last h);
  later = l;
  spent = rw (e, is_allowed-bucket rate capacity window now tokens last h) (spend k _ _ q);
}

refill-le :
    (rate capacity now tokens last : ℕ)
    → refill rate capacity now tokens last ≤ tokens + (now - last) * rate
refill-le rate capacity now tokens last = ground arith

refill-capacity :
    (rate capacity now tokens last : ℕ) → refill rate capacity now tokens last ≤ capacity * 1000
refill-capacity rate capacity now tokens last = ground arith

-- Time that passes in two parts.
elapsed_sum :
    (rate start last now : ℕ)
    → start ≤ last
    → last ≤ now
    → (now - start) * rate ≡ (last - start) * rate + (now - last) * rate
elapsed_sum rate start last now h l = grind arith

-- A bucket that expires is full again no sooner than the refill would have filled it.
abbrev pub SlowExpiry : ℕ → ℕ → ℕ → Type 0
SlowExpiry rate capacity window = capacity * 1000 ≤ (1000 * expire_seconds window) * rate

expired-refill :
    (rate capacity window last now : ℕ)
    → SlowExpiry rate capacity window
    → last + 1000 * expire_seconds window ≤ now
    → capacity * 1000 ≤ (now - last) * rate
expired-refill rate capacity window last now h l =
    let enough : 1000 * expire_seconds window ≤ now - last = omega arith in
    omega (arith, mul-le-mul_right rate enough, h)

full_bucket :
    (rate capacity window now : ℕ)
    → or_full (args rate capacity window now) none ≡ bucket (capacity * 1000) now
full_bucket rate capacity window now = rw (pos-mul capacity 1000) refl

next-Within :
    (rate capacity window start last now k : ℕ) (b : Bucket) (found : Option Bucket)
    → SlowExpiry rate capacity window
    → Within rate capacity start b last k
    → last ≤ now
    → Found window b last now found
    → Within rate capacity start
        (script (args rate capacity window now) found).0
        now
        (k + counted (args rate capacity window now) found)
next-Within rate capacity window start last now k b found slow w l (inl kept) =
    script-bucket rate capacity window start now w.tokens last k found
      (ap (or_full (args rate capacity window now)) kept ∙ w.held) l (omega (arith, w.later))
      (omega (
        arith,
        w.spent,
        refill-le rate capacity now w.tokens last,
        elapsed_sum rate start last now w.later l,
      ))
next-Within rate capacity window start last now k b found slow w l (inr (gone, due)) =
    script-bucket rate capacity window start now (capacity * 1000) now k found
      (ap (or_full (args rate capacity window now)) gone ∙ full_bucket rate capacity window now)
      (omega arith) (omega (arith, w.later))
      (omega (
        arith,
        w.spent,
        refill-capacity rate capacity now (capacity * 1000) now,
        elapsed_sum rate start last now w.later l,
        expired-refill rate capacity window last now slow due,
      ))

first-Within :
    (rate capacity window start : ℕ)
    → Within rate capacity start
        (script (args rate capacity window start) none).0
        start
        (0 + counted (args rate capacity window start) none)
first-Within rate capacity window start =
    script-bucket rate capacity window start start (capacity * 1000) start 0 none
      (full_bucket rate capacity window start) (omega arith) (omega arith)
      (omega (arith, refill-capacity rate capacity start (capacity * 1000) start))

Trace-Within :
    {rate capacity window start last k : ℕ} {b : Bucket}
    → SlowExpiry rate capacity window
    → Trace rate capacity window start b last k
    → Within rate capacity start b last k
Trace-Within {rate} {capacity} {window} {start} slow first = first-Within rate capacity window start
Trace-Within {rate} {capacity} {window} {start} slow (next {b} {last} {k} {found} now t l f) =
    next-Within rate capacity window start last now k b found slow (Trace-Within slow t) l f

-- Of the requests for one key between two moments, the first of which finds no bucket, at most the
-- capacity and what the rate adds in that time are admitted: whatever their times, and whether the
-- bucket expires in between, if the clock does not run back and the expiry is not sooner than a
-- full refill.
pub Trace-bound :
    {rate capacity window start last k : ℕ} {b : Bucket}
    → SlowExpiry rate capacity window
    → Trace rate capacity window start b last k
    → k * 1000 ≤ capacity * 1000 + (last - start) * rate
Trace-bound slow t = omega (arith, (Trace-Within slow t).spent)

refill-enough :
    (rate capacity now tokens last : ℕ)
    → 1 ≤ capacity
    → 1000 ≤ (now - last) * rate
    → leb 1000 (refill rate capacity now tokens last) ≡ true
refill-enough rate capacity now tokens last c h = ground arith

refill-full :
    (rate capacity now : ℕ)
    → 1 ≤ capacity
    → leb 1000 (refill rate capacity now (capacity * 1000) now) ≡ true
refill-full rate capacity now c = ground arith

-- After any history, a request is admitted that comes so long after the one before that the rate
-- has added a whole token, whether the bucket has expired or not, if the capacity is not zero.
pub Trace-admits :
    {rate capacity window start last k : ℕ} {b : Bucket} (now : ℕ) (found : Option Bucket)
    → SlowExpiry rate capacity window
    → 1 ≤ capacity
    → Trace rate capacity window start b last k
    → last ≤ now
    → Found window b last now found
    → 1000 ≤ (now - last) * rate
    → counted (args rate capacity window now) found ≡ 1
Trace-admits {rate} {capacity} {window} {start} {last} now found slow c t l (inl kept) h =
    let w = Trace-Within slow t in
    let e = ap (or_full (args rate capacity window now)) kept ∙ w.held in
    rw
      (
        e,
        is_allowed-bucket rate capacity window now w.tokens last l,
        refill-enough rate capacity now w.tokens last c h,
      )
      refl
Trace-admits {rate} {capacity} {window} {start} {last} now found slow c t l (inr (gone, due)) h =
    let e =
      ap (or_full (args rate capacity window now)) gone ∙ full_bucket rate capacity window now in
    rw
      (
        e,
        is_allowed-bucket rate capacity window now (capacity * 1000) now (omega arith),
        refill-full rate capacity now c,
      )
      refl
