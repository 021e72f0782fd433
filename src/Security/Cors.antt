-- ===== src/Security/Cors.antt =====
-- Which origins the CORS handler of middleware/security/security.go grants access.
use gateway_a.Prelude.{
  Text, text_eq, codes, Bool, true, false, ◌&&◌, ◌||◌, Option, none, some, List, [], ◌∷◌, ◌++◌,
  contains, ◌≡◌, refl, ◌≢◌, ◌↔◌, ◌⊎◌, arith, ◌==◌, string_eq, text_beq_iff, ◌∙◌, sym,
}
use gateway_a.Http.{next}
use gateway_a.Http.Actions.{header_of, header_of-append}
use gateway_a.Security.{CorsOptions, cors, origin_loop, check_origin, preflight, star, credentials}
use gateway_a.Security.Preflight.{
  allow_origin, allow_credentials, credentials_if, preflight-header_of, cors-allow_origin,
}

-- What the header may say about an origin, for a list of allowed origins.
abbrev pub Grants : Text → List Text → Text → Type 0
Grants origin origins v =
    ((v ≡ star) × ((origins ≡ []) ⊎ (contains origins star ≡ true)))
    ⊎ ((v ≡ origin) × (contains origins origin ≡ true))

origin_loop-allowed :
    (origin : Text) (origins : List Text)
    → (origin_loop origin origins).0 ≡ (contains origins star || contains origins origin)
unfolding origin_loop contains
origin_loop-allowed origin [] = refl
origin_loop-allowed origin (a ∷ rest) = ground (
  arith,
  origin_loop-allowed origin rest,
  text_beq_iff a star,
  text_beq_iff star a,
  text_beq_iff a origin,
  text_beq_iff origin a,
)

origin_loop-Grants :
    (origin : Text) (origins : List Text) (v : Text)
    → header_of allow_origin (origin_loop origin origins).1 ≡ some v
    → ((v ≡ star) × (contains origins star ≡ true))
      ⊎ ((v ≡ origin) × (contains origins origin ≡ true))
unfolding origin_loop contains header_of
origin_loop-Grants origin [] v h = cc
origin_loop-Grants origin (a ∷ rest) v h = ground (
  arith,
  origin_loop-Grants origin rest v,
  text_beq_iff a star,
  text_beq_iff star a,
  text_beq_iff a origin,
  text_beq_iff origin a,
)

abbrev is_given : Option Text → Bool
is_given none = false
is_given (some v) = true

origin_loop-header :
    (origin : Text) (origins : List Text)
    → is_given (header_of allow_origin (origin_loop origin origins).1)
      ≡ (origin_loop origin origins).0
unfolding origin_loop header_of
origin_loop-header origin [] = refl
origin_loop-header origin (a ∷ rest) = ground (arith, origin_loop-header origin rest)

origin_loop-credentials :
    (origin : Text) (origins : List Text)
    → header_of allow_credentials (origin_loop origin origins).1 ≡ none
unfolding origin_loop header_of
origin_loop-credentials origin [] = refl
origin_loop-credentials origin (a ∷ rest) = ground (arith, origin_loop-credentials origin rest)

check_origin-Grants :
    (origin : Text) (origins : List Text) (v : Text)
    → header_of allow_origin (check_origin origin origins).1 ≡ some v
    → Grants origin origins v
unfolding check_origin header_of
check_origin-Grants origin [] v h = ground arith
check_origin-Grants origin (a ∷ rest) v h = ground (arith, origin_loop-Grants origin (a ∷ rest) v)

check_origin-header :
    (origin : Text) (origins : List Text)
    → is_given (header_of allow_origin (check_origin origin origins).1)
      ≡ (check_origin origin origins).0
unfolding check_origin header_of
check_origin-header origin [] = refl
check_origin-header origin (a ∷ rest) = origin_loop-header origin (a ∷ rest)

-- Whether the origin is allowed, from the list alone.
check_origin-allowed :
    (origin : Text) (origins : List Text)
    → ((check_origin origin origins).0 ≡ false)
      ↔ ((origins ≢ []) × (contains origins star ≡ false) × (contains origins origin ≡ false))
unfolding check_origin
check_origin-allowed origin [] = ground arith
check_origin-allowed origin (a ∷ rest) = ground (arith, origin_loop-allowed origin (a ∷ rest))

check_origin-credentials :
    (origin : Text) (origins : List Text)
    → header_of allow_credentials (check_origin origin origins).1 ≡ none
unfolding check_origin header_of
check_origin-credentials origin [] = refl
check_origin-credentials origin (a ∷ rest) = origin_loop-credentials origin (a ∷ rest)

-- The value of Access-Control-Allow-Origin is the star only where the list is empty or has the
-- star, and is the request's origin only where the list has that origin; it is nothing else.
pub cors-Grants :
    (opts : CorsOptions) (origin method v : Text)
    → header_of allow_origin (cors opts origin method) ≡ some v
    → Grants origin opts.allowed_origins v
cors-Grants opts origin method v h =
    check_origin-Grants origin opts.allowed_origins v
      (sym (cors-allow_origin opts origin method) ∙ h)

-- No Access-Control-Allow-Origin is sent exactly where the list is not empty and holds neither the
-- star nor the request's origin.
pub cors-none_iff :
    (opts : CorsOptions) (origin method : Text)
    → (header_of allow_origin (cors opts origin method) ≡ none) ↔ (
        (opts.allowed_origins ≢ [])
        × (contains opts.allowed_origins star ≡ false)
        × (contains opts.allowed_origins origin ≡ false))
cors-none_iff opts origin method =
    let (to, from) = check_origin-allowed origin opts.allowed_origins in
    let given = check_origin-header origin opts.allowed_origins in
    let sent = cors-allow_origin opts origin method in
    (λ h. to (ground (arith, h)), λ h. ground (arith, from h))

-- Access-Control-Allow-Credentials is sent, with the value true, where it is configured and the
-- request is a preflight one or its origin is allowed: a preflight request gets it from any origin.
pub cors-credentials :
    (opts : CorsOptions) (origin method : Text)
    → header_of allow_credentials (cors opts origin method)
      ≡ credentials_if (
          opts.allow_credentials
          && ((method == codes "OPTIONS")
              || is_given (header_of allow_origin (cors opts origin method))))
unfolding cors header_of
cors-credentials opts origin method = rw (cors-allow_origin opts origin method) (
    rw (check_origin-header origin opts.allowed_origins) (
      ground (
        arith,
        check_origin-credentials origin opts.allowed_origins,
        header_of-append allow_credentials (check_origin origin opts.allowed_origins).1
            (preflight opts),
        header_of-append allow_credentials (check_origin origin opts.allowed_origins).1 (
            credentials (opts.allow_credentials && (check_origin origin opts.allowed_origins).0)
            ++ next ∷ []),
        preflight-header_of allow_credentials opts refl refl refl refl,
      )))
