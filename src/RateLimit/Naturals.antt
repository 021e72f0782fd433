-- ===== src/RateLimit/Naturals.antt =====
-- The script of middleware/ratelimit/token_bucket.go where no number is negative.
use gateway_a.Prelude.{
  ℕ, ◌+◌, ◌-◌, ◌*◌, ◌≤◌, pos, ◌-ℤ◌, ◌*ℤ◌, +ℤ_pos, leb, leb_ℤ, if◌then◌else◌, ◌≡◌, refl, arith,
}
use gateway_a.RateLimit.{Bucket, Arguments, refilled, is_allowed, taken, min_ℤ}

-- A configuration and a moment with no negative number; the script asks for one token.
abbrev pub args : ℕ → ℕ → ℕ → ℕ → Arguments
args rate capacity window now = record {
  rate = pos rate;
  capacity = pos capacity;
  now = pos now;
  window = pos window;
  requested = pos 1;
}

abbrev pub bucket : ℕ → ℕ → Bucket
bucket tokens last = record { tokens = pos tokens; last_update = pos last }

pub pos-sub : (m n : ℕ) → n ≤ m → pos m -ℤ pos n ≡ pos (m - n)
unfolding ◌-ℤ◌
pos-sub m n h = ground arith

pub pos-mul : (m n : ℕ) → pos m *ℤ pos n ≡ pos (m * n)
unfolding ◌*ℤ◌
pos-mul m n = ground arith

abbrev pub min_ℕ : ℕ → ℕ → ℕ
min_ℕ a b = if leb a b then a else b

pub min_pos : (a b : ℕ) → min_ℤ (pos a) (pos b) ≡ pos (min_ℕ a b)
min_pos a b = ground arith

-- The refill on natural numbers.
abbrev pub refill : ℕ → ℕ → ℕ → ℕ → ℕ → ℕ
refill rate capacity now tokens last = min_ℕ (capacity * 1000) (tokens + (now - last) * rate)

pub refilled-bucket :
    (rate capacity window now tokens last : ℕ)
    → last ≤ now
    → refilled (args rate capacity window now) (bucket tokens last)
      ≡ pos (refill rate capacity now tokens last)
unfolding refilled
refilled-bucket rate capacity window now tokens last h =
    rw (pos-sub now last h, pos-mul (now - last) rate, pos-mul capacity 1000, +ℤ_pos)
      (min_pos (capacity * 1000) (tokens + (now - last) * rate))

-- One request on a bucket: the tokens it leaves, and whether it is admitted.
abbrev pub admitted : ℕ → ℕ
admitted refilled = if leb 1000 refilled then 1 else 0

abbrev pub left : ℕ → ℕ
left refilled = if leb 1000 refilled then refilled - 1000 else refilled

pub leb_pos : (a b : ℕ) → leb_ℤ (pos a) (pos b) ≡ leb a b
leb_pos a b = ground arith

pub left_pos : (r : ℕ) → (if leb 1000 r then pos r -ℤ pos 1000 else pos r) ≡ pos (left r)
unfolding ◌-ℤ◌
left_pos r = ground arith

pub is_allowed-bucket :
    (rate capacity window now tokens last : ℕ)
    → last ≤ now
    → is_allowed (args rate capacity window now) (bucket tokens last)
      ≡ leb 1000 (refill rate capacity now tokens last)
unfolding is_allowed
is_allowed-bucket rate capacity window now tokens last h =
    rw (refilled-bucket rate capacity window now tokens last h, pos-mul 1 1000) (leb_pos 1000 _)

pub taken-bucket :
    (rate capacity window now tokens last : ℕ)
    → last ≤ now
    → taken (args rate capacity window now) (bucket tokens last)
      ≡ bucket (left (refill rate capacity now tokens last)) now
unfolding taken
taken-bucket rate capacity window now tokens last h =
    rw
      (
        is_allowed-bucket rate capacity window now tokens last h,
        refilled-bucket rate capacity window now tokens last h,
        pos-mul 1 1000,
        left_pos,
      )
      refl
