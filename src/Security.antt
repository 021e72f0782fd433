-- ===== src/Security.antt =====
-- middleware/security/security.go: the security headers and CORS, as the calls that each handler
-- makes on the request context.
pub mod Preflight
pub mod Cors
mod Tests
use gateway_a.Prelude.{
  ℕ, ◌+◌, ℤ, pos, negsuc, ltb_ℤ, itoa, Text, text_eq, codes, Bool, true, false, not, ◌&&◌, ◌||◌,
  List, [], ◌∷◌, ◌++◌, if◌then◌else◌, ◌==◌, String,
}
use gateway_a.Http.{Action, header, next, set_status, set_body, abort}

pub record SecurityHeaders : Type 0 where
  pub content_security_policy : Text
  pub x_frame_options : Text
  pub x_content_type_options : Text
  pub x_xss_protection : Text
  pub x_permitted_cross_domain_policies : Text
  pub referrer_policy : Text
  pub permissions_policy : Text
  pub strict_transport_security : Text

abbrev pub default_security_headers : SecurityHeaders
default_security_headers = record {
  content_security_policy = [];
  x_frame_options = codes "DENY";
  x_content_type_options = codes "nosniff";
  x_xss_protection = codes "0";
  x_permitted_cross_domain_policies = codes "none";
  referrer_policy = codes "strict-origin-when-cross-origin";
  permissions_policy = codes "camera=(), microphone=(), geolocation=()";
  strict_transport_security = codes "max-age=31536000; includeSubDomains; preload";
}

abbrev unless_empty : String → Text → List Action → List Action
unless_empty name [] rest = rest
unless_empty name (c ∷ value) rest = header name (c ∷ value) ∷ rest

-- The handler that `Security` returns.
unfoldable pub security : SecurityHeaders → List Action
security h = unless_empty "X-Frame-Options" h.x_frame_options (
    unless_empty "X-Content-Type-Options" h.x_content_type_options (
      unless_empty "X-XSS-Protection" h.x_xss_protection (
        unless_empty "X-Permitted-Cross-Domain-Policies" h.x_permitted_cross_domain_policies (
          unless_empty "Referrer-Policy" h.referrer_policy (
            unless_empty "Permissions-Policy" h.permissions_policy (
              unless_empty "Strict-Transport-Security" h.strict_transport_security
                (unless_empty "Content-Security-Policy" h.content_security_policy (next ∷ []))))))))

pub record CorsOptions : Type 0 where
  pub allowed_origins : List Text
  pub allowed_methods : List Text
  pub allowed_headers : List Text
  pub exposed_headers : List Text
  pub allow_credentials : Bool
  pub max_age : ℤ

abbrev pub star : Text
star = codes "*"

abbrev pub default_cors_options : CorsOptions
default_cors_options = record {
  allowed_origins = star ∷ [];
  allowed_methods =
      codes "GET"
      ∷ codes "POST"
      ∷ codes "PUT"
      ∷ codes "PATCH"
      ∷ codes "DELETE"
      ∷ codes "OPTIONS"
      ∷ [];
  allowed_headers =
      codes "Accept"
      ∷ codes "Authorization"
      ∷ codes "Content-Type"
      ∷ codes "X-Request-ID"
      ∷ codes "X-Trace-ID"
      ∷ [];
  exposed_headers = codes "X-Request-ID" ∷ codes "X-Trace-ID" ∷ [];
  allow_credentials = false;
  max_age = pos 86400;
}

-- strings.Join(parts, ", ")
join : List Text → Text
join [] = []
join (p ∷ []) = p
join (p ∷ q ∷ rest) = p ++ (codes ", " ++ join (q ∷ rest))

abbrev listed : String → List Text → List Action
listed name [] = []
listed name (p ∷ rest) = header name (join (p ∷ rest)) ∷ []

-- The loop over the allowed origins: whether the origin is allowed, and the headers set.
origin_loop : Text → List Text → Bool × List Action
origin_loop origin [] = (false, [])
origin_loop origin (allowed ∷ rest) =
    if allowed == star || allowed == origin
    then (
      true,
      if not (allowed == star)
          then header "Vary" (codes "Origin") ∷ header "Access-Control-Allow-Origin" origin ∷ []
          else header "Access-Control-Allow-Origin" star ∷ [],
    )
    else origin_loop origin rest

pub check_origin : Text → List Text → Bool × List Action
check_origin origin [] = (true, header "Access-Control-Allow-Origin" star ∷ [])
check_origin origin (allowed ∷ rest) = origin_loop origin (allowed ∷ rest)

abbrev credentials : Bool → List Action
credentials allow =
    if allow then header "Access-Control-Allow-Credentials" (codes "true") ∷ [] else []

abbrev max_age_header : ℤ → List Action
max_age_header age =
    if ltb_ℤ (pos 0) age then header "Access-Control-Max-Age" (itoa age) ∷ [] else []

pub preflight : CorsOptions → List Action
preflight opts =
    listed "Access-Control-Allow-Methods" opts.allowed_methods
    ++ (listed "Access-Control-Allow-Headers" opts.allowed_headers
        ++ (listed "Access-Control-Expose-Headers" opts.exposed_headers
            ++ (max_age_header opts.max_age
                ++ (credentials opts.allow_credentials
                    ++ (set_status 204 ∷ set_body [] ∷ abort ∷ [])))))

-- The handler that `CORS` returns, on a request's Origin header and method.
unfoldable pub cors : CorsOptions → Text → Text → List Action
unfolding check_origin origin_loop preflight join
cors opts origin method =
    let (allowed, headers) = check_origin origin opts.allowed_origins in
    if method == codes "OPTIONS"
    then headers ++ preflight opts
    else headers ++ (credentials (opts.allow_credentials && allowed) ++ next ∷ [])
