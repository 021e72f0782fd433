-- ===== src/Security/Preflight.antt =====
-- The headers and the last action of the answers of the CORS handler of middleware/security/security.go.
use gateway_a.Prelude.{
  ℤ, Text, text_eq, codes, Bool, false, ◌&&◌, Option, none, some, List, [], ◌∷◌, ◌++◌, ◌≡◌, refl,
  inl, inr, arith, if◌then◌else◌, ◌==◌, string_eq, String, Bool-cases, ◌∙◌,
}
use gateway_a.Http.{Action, next, set_status, set_body, abort}
use gateway_a.Http.Actions.{final_action, header_of, header_of-append, final_action-append}
use gateway_a.Security.{
  CorsOptions, cors, check_origin, preflight, max_age_header, credentials, listed,
}

final_action-preflight : (opts : CorsOptions) → final_action (preflight opts) ≡ some abort
unfolding preflight
final_action-preflight opts =
    final_action-append (listed "Access-Control-Allow-Methods" opts.allowed_methods) _ (
      final_action-append (listed "Access-Control-Allow-Headers" opts.allowed_headers) _ (
        final_action-append (listed "Access-Control-Expose-Headers" opts.exposed_headers) _ (
          final_action-append (max_age_header opts.max_age) _ (
            final_action-append (credentials opts.allow_credentials)
              (set_status 204 ∷ set_body [] ∷ abort ∷ []) (unfold final_action in refl)))))

-- A preflight request (OPTIONS) is answered and stopped; any other request goes on to its handler,
-- from an allowed origin or not.
pub final_action-cors :
    (opts : CorsOptions) (origin method : Text)
    → final_action (cors opts origin method)
      ≡ (if method == codes "OPTIONS" then some abort else some next)
unfolding cors
final_action-cors opts origin method =
    let headers = (check_origin origin opts.allowed_origins).1 in
    let allowed = (check_origin origin opts.allowed_origins).0 in
    let done : final_action (headers ++ preflight opts) ≡ some abort =
      final_action-append headers (preflight opts) (final_action-preflight opts) in
    let passed : final_action
          (headers ++ (credentials (opts.allow_credentials && allowed) ++ next ∷ []))
        ≡ some next =
      final_action-append headers _ (
        final_action-append (credentials (opts.allow_credentials && allowed)) (next ∷ [])
          (unfold final_action in refl)) in
    elim (Bool-cases (method == codes "OPTIONS")) [ inl e ↦ rw e done | inr e ↦ rw e passed ]

abbrev pub allow_origin : String
allow_origin = "Access-Control-Allow-Origin"

abbrev pub allow_credentials : String
allow_credentials = "Access-Control-Allow-Credentials"

header_of-listed :
    (name other : String) (parts : List Text)
    → (other == name) ≡ false
    → header_of name (listed other parts) ≡ none
unfolding header_of
header_of-listed name other [] h = refl
header_of-listed name other (p ∷ parts) h = ground (arith, h)

header_of-none_append :
    (name : String) (xs ys : List Action)
    → header_of name xs ≡ none
    → header_of name (xs ++ ys) ≡ header_of name ys
header_of-none_append name xs ys h = header_of-append name xs ys ∙ ground arith

header_of-max_age :
    (name : String) (age : ℤ)
    → ("Access-Control-Max-Age" == name) ≡ false
    → header_of name (max_age_header age) ≡ none
unfolding header_of
header_of-max_age name age h = ground (arith, h)

abbrev pub credentials_if : Bool → Option Text
credentials_if allow = if allow then some (codes "true") else none

-- The part of the preflight answer before its credentials header sets neither of the two headers.
pub preflight-header_of :
    (name : String) (opts : CorsOptions)
    → ("Access-Control-Allow-Methods" == name) ≡ false
    → ("Access-Control-Allow-Headers" == name) ≡ false
    → ("Access-Control-Expose-Headers" == name) ≡ false
    → ("Access-Control-Max-Age" == name) ≡ false
    → header_of name (preflight opts)
      ≡ header_of name
          (credentials opts.allow_credentials ++ (set_status 204 ∷ set_body [] ∷ abort ∷ []))
unfolding preflight
preflight-header_of name opts m h e a =
    header_of-none_append name _ _ (header_of-listed name _ opts.allowed_methods m)
    ∙ (header_of-none_append name _ _ (header_of-listed name _ opts.allowed_headers h)
        ∙ (header_of-none_append name _ _ (header_of-listed name _ opts.exposed_headers e)
            ∙ header_of-none_append name _ _ (header_of-max_age name opts.max_age a)))

pub cors-allow_origin :
    (opts : CorsOptions) (origin method : Text)
    → header_of allow_origin (cors opts origin method)
      ≡ header_of allow_origin (check_origin origin opts.allowed_origins).1
unfolding cors header_of
cors-allow_origin opts origin method = ground (
  arith,
  header_of-append allow_origin (check_origin origin opts.allowed_origins).1 (preflight opts),
  header_of-append allow_origin (check_origin origin opts.allowed_origins).1 (
      credentials (opts.allow_credentials && (check_origin origin opts.allowed_origins).0)
      ++ next ∷ []),
  preflight-header_of allow_origin opts refl refl refl refl,
)
