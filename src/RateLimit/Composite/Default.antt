-- ===== src/RateLimit/Composite/Default.antt =====
-- What CompositeMiddleware of middleware/ratelimit/composite.go does with the limiter that it makes.
use gateway_a.Prelude.{ℤ, Text, Bool, true, false, ◌||◌, Option, none, some, ◌≡◌, arith, ◌↔◌}
use gateway_a.RateLimit.{panicked, check}
use gateway_a.RateLimit.Composite.{Dimension, Request, KeyFunc, Buckets, check_key, check_all}
use gateway_a.RateLimit.Composite.Middleware.{CompositeOptions, composite_middleware}

abbrev is_some : Option KeyFunc → Bool
is_some none = false
is_some (some f) = true

abbrev pub any_key : CompositeOptions → Bool
any_key o = is_some o.ip_key || (is_some o.api_key_key || is_some o.tenant_key)

-- The handler of CompositeMiddleware panics exactly where the
-- options have a key function.
pub composite_middleware-panics_iff :
    (o : CompositeOptions) (held : Option Text) (request : Request) (now : Dimension → ℤ)
    (reset : ℤ) (buckets : Buckets)
    → ((composite_middleware o held request now reset buckets).1 ≡ panicked) ↔ (any_key o ≡ true)
unfolding composite_middleware check_all check_key check
composite_middleware-panics_iff o held request now reset buckets = ground arith
