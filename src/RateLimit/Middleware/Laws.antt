-- ===== src/RateLimit/Middleware/Laws.antt =====
-- What the handlers of middleware/ratelimit/middleware.go answer.
use gateway_a.Prelude.{ℕ, ◌<◌, pos, itoa, codes, Bool, false, some, ◌≡◌, refl, arith}
use gateway_a.Http.Actions.{header_of}
use gateway_a.RateLimit.{RateLimitResult, quotient}
use gateway_a.RateLimit.Middleware.{respond, retry_duration, second}

retry_duration-small :
    (n : ℕ) → n < 1000000000000000000 → quotient (retry_duration (pos n)) second ≡ pos 0
unfolding quotient
retry_duration-small n h = ground arith

-- A request over its limit is told to retry after zero seconds: where the script asks it to wait for
-- less than ten to the eighteenth nanoseconds, the header Retry-After is "0", however long the wait.
pub respond-Retry-After :
    (custom : Bool) (r : RateLimitResult) (wait : ℕ)
    → r.allowed ≡ false
    → r.retry_after ≡ pos wait
    → wait < 1000000000000000000
    → header_of "Retry-After" (respond custom r) ≡ some (codes "0")
unfolding respond header_of itoa
respond-Retry-After custom r wait refused w h = rw (refused, w, retry_duration-small wait h) refl
