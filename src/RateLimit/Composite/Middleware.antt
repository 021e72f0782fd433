-- ===== src/RateLimit/Composite/Middleware.antt =====
-- middleware/ratelimit/composite.go: the options, and the handler that CompositeMiddleware returns.
use gateway_a.Prelude.{
  ℤ, pos, negsuc, ltb_ℤ, itoa, Text, text_eq, codes, Bool, true, false, not, ◌&&◌, Option, none,
  some, List, [], ◌∷◌, if◌then◌else◌,
}
use gateway_a.Http.{Action, header, json, next, custom_response, text, number}
use gateway_a.RateLimit.{Redis, new_token_bucket, Outcome, done, failed, panicked, quotient}
use gateway_a.RateLimit.Composite.{
  Request, KeyFunc, default_ip_key, default_api_key_key, default_tenant_key, Dimension,
  CompositeRateLimiter, CompositeRateLimitResult, Buckets, Progress, Keys, check_all,
  set_prefix_of_all, ip, api_key, tenant,
}

pub record CompositeOptions : Type 0 where
  pub ip_rate : ℤ
  pub ip_bucket_size : ℤ
  pub ip_window : ℤ
  pub api_key_rate : ℤ
  pub api_key_bucket_size : ℤ
  pub api_key_window : ℤ
  pub tenant_rate : ℤ
  pub tenant_bucket_size : ℤ
  pub tenant_window : ℤ
  pub ip_key : Option KeyFunc
  pub api_key_key : Option KeyFunc
  pub tenant_key : Option KeyFunc
  pub custom_response : Bool
  pub strict_mode : Bool

abbrev pub default_composite_options : CompositeOptions
default_composite_options = record {
  ip_rate = pos 100;
  ip_bucket_size = pos 500;
  ip_window = pos 60000000000;
  api_key_rate = pos 60;
  api_key_bucket_size = pos 1000;
  api_key_window = pos 60000000000;
  tenant_rate = pos 1000;
  tenant_bucket_size = pos 10000;
  tenant_window = pos 60000000000;
  ip_key = some default_ip_key;
  api_key_key = some default_api_key_key;
  tenant_key = some default_tenant_key;
  custom_response = false;
  strict_mode = true;
}

-- NewCompositeRateLimiter.
abbrev pub new_composite : Option Redis → CompositeOptions → CompositeRateLimiter
new_composite client o = record {
  ip_limiter = new_token_bucket client o.ip_rate o.ip_bucket_size o.ip_window;
  api_key_limiter = new_token_bucket client o.api_key_rate o.api_key_bucket_size o.api_key_window;
  tenant_limiter = new_token_bucket client o.tenant_rate o.tenant_bucket_size o.tenant_window;
  redis_prefix = codes "ratelimit:";
  default_limit = o.ip_bucket_size;
}

abbrev key_of : Option KeyFunc → Option Text → Option Text
key_of none held = none
key_of (some f) held = some (f held none)

-- The keys that Check asks for: each key function is called with no request.
abbrev pub keys_of : CompositeOptions → Option Text → Keys
keys_of o held = record {
  ip = key_of o.ip_key held;
  api_key = key_of o.api_key_key held;
  tenant = key_of o.tenant_key held;
}

abbrev reason_text : Option Dimension → Text
reason_text none = []
reason_text (some ip) = codes "ip"
reason_text (some api_key) = codes "api_key"
reason_text (some tenant) = codes "tenant"

abbrev second : ℤ
second = pos 1000000000

abbrev at_least_one : ℤ → ℤ
at_least_one z = if ltb_ℤ z (pos 1) && ltb_ℤ (negsuc 0) z then pos 1 else z

-- The variable `retryAfter` of the middleware.
abbrev retry_seconds : ℤ → ℤ
retry_seconds retry_after =
    if ltb_ℤ (pos 0) retry_after then at_least_one (quotient retry_after second) else second

abbrev refusal : Bool → CompositeRateLimitResult → Action
refusal custom c =
    if custom
    then custom_response
    else json 429 (
        ("error", text (codes "rate limit exceeded"))
        ∷ ("blocked_by", text (reason_text c.reason))
        ∷ ("retry_after", number (retry_seconds c.retry_after))
        ∷ ("ip_remaining", number c.ip_remaining)
        ∷ ("apikey_remaining", number c.api_key_remaining)
        ∷ ("tenant_remaining", number c.tenant_remaining)
        ∷ [])

-- What the handler answers to a result of Check; `reset` is the second at which the window ends.
unfoldable pub respond : Bool → ℤ → CompositeRateLimitResult → List Action
unfolding quotient
respond custom reset c =
    header "X-RateLimit-Limit" (itoa c.ip_limit)
    ∷ header "X-RateLimit-Remaining" (itoa c.ip_remaining)
    ∷ header "X-RateLimit-Reset" (itoa reset)
    ∷ header "X-RateLimit-IP-Remaining" (itoa c.ip_remaining)
    ∷ header "X-RateLimit-APIKey-Remaining" (itoa c.api_key_remaining)
    ∷ header "X-RateLimit-Tenant-Remaining" (itoa c.tenant_remaining)
    ∷ (if not c.allowed
        then header "Retry-After" (itoa (retry_seconds c.retry_after))
          ∷ header "X-RateLimit-Blocked-By" (reason_text c.reason)
          ∷ refusal custom c
          ∷ []
        else next ∷ [])

abbrev answer : Bool → ℤ → Progress → Buckets × Outcome (List Action)
answer custom reset (buckets, done c) = (buckets, done (respond custom reset c))
answer custom reset (buckets, failed e) = (buckets, done (next ∷ []))
answer custom reset (buckets, panicked) = (buckets, panicked)

-- CompositeMiddleware: its limiter has no client.
unfoldable pub composite_middleware :
    CompositeOptions
    → Option Text
    → Request
    → (Dimension → ℤ)
    → ℤ
    → Buckets
    → Buckets × Outcome (List Action)
unfolding check_all
composite_middleware o held request now reset buckets = answer o.custom_response reset (
    check_all (set_prefix_of_all (codes "ratelimit:") (new_composite none o)) (keys_of o held) now
      buckets)

-- CompositeMiddlewareWithKeyFuncs.
abbrev pub composite_middleware_with_key_funcs :
    CompositeOptions
    → (ip_key api_key_key tenant_key : Option KeyFunc) → Option Text
    → Request
    → (Dimension → ℤ)
    → ℤ
    → Buckets
    → Buckets × Outcome (List Action)
composite_middleware_with_key_funcs o ip_key api_key_key tenant_key =
    composite_middleware
      (record o { ip_key = ip_key; api_key_key = api_key_key; tenant_key = tenant_key })
