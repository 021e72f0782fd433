-- ===== src/Validation/Requests.antt =====
-- ValidateRequest and Middleware of middleware/validation/validation.go. `bound` is what the web
-- framework binds of the body: an error, or the map, which is empty where it is nil.
use mathlib.Core.Path.{subst}
use gateway_a.Prelude.{
  Text, codes, map, text_eq, Option, none, some, List, [], ◌∷◌, ◌++◌, lookup, All, Result, ok, err,
  Error, Float64, ◌≡◌, refl, sym, ap, ◌≢◌, ◌↔◌, arith,
}
use gateway_a.Http.{Action, json, next, text, texts}
use gateway_a.RateLimit.{Outcome, done}
use gateway_a.Validation.{Value, FieldValidator, Options, External, Complaint, pass, fail, panic}
use gateway_a.Validation.Checks.{validate_field}

pub record Schema (F : Type 0) : Type 0 where
  pub fields : List (FieldValidator F)
  pub required : List Text

-- One entry of the list of errors.
pub data Problem : Type 0 where
  bad_format : Error → Problem
  missing : (field : Text) → Problem
  invalid : (field : Text) → Complaint → Problem

abbrev add_problem : Problem → Option (List Problem) → Option (List Problem)
add_problem p none = none
add_problem p (some ps) = some (p ∷ ps)

abbrev behind : List Problem → Option (List Problem) → Option (List Problem)
behind ps none = none
behind ps (some qs) = some (ps ++ qs)

behind_iff :
    (ps : List Problem) (r : Option (List Problem))
    → (behind ps r ≡ some []) ↔ ((ps ≡ []) × (r ≡ some []))
behind_iff ps none = (λ h. cc, λ h. cc)
behind_iff [] (some qs) = (λ h. (refl, h), λ h. h.1)
behind_iff (p ∷ ps) (some qs) = (λ h. cc, λ h. cc)

abbrev bound_map : {F : Type 0} → Result (List (Text × Value F)) → List (Text × Value F)
bound_map (ok values) = values
bound_map (err e) = []

module _ {F : Type 0} where
  abbrev missing_if : Text → Option (Value F) → List Problem
  missing_if name none = missing name ∷ []
  missing_if name (some v) = []

  -- The loop over the required fields.
  check_required : List Text → List (Text × Value F) → List Problem
  check_required [] values = []
  check_required (name ∷ rest) values =
      missing_if name (lookup name values) ++ check_required rest values

module _ {F : Type 0} ⦃fl : Float64 F⦄ where
  -- The loop over the fields; `none` is a panic.
  check_fields :
      External → Options → List (Text × Value F) → List (FieldValidator F) → Option (List Problem)
  check_fields x v values [] = some []
  check_fields x v values (f ∷ rest) = elim (validate_field x v values f) [
    | panic ↦ none
    | pass ↦ check_fields x v values rest
    | fail c ↦ add_problem (invalid f.name c) (check_fields x v values rest)
  ]

  -- ValidateRequest: the errors, which are none exactly where the result is valid.
  unfoldable pub validate_request :
      External
      → Options
      → Option (Schema F)
      → Result (List (Text × Value F))
      → Option (List Problem)
  unfolding check_required check_fields
  validate_request x v none bound = some []
  validate_request x v (some schema) (err e) = some (bad_format e ∷ [])
  validate_request x v (some schema) (ok values) =
      behind (check_required schema.required values) (check_fields x v values schema.fields)

  -- The field is in the map.
  abbrev pub Present : List (Text × Value F) → Text → Type 0
  Present values name = lookup name values ≢ none

  -- The request meets the schema.
  abbrev pub Meets : External → Options → Schema F → List (Text × Value F) → Type 0
  Meets x v schema values =
      All (Present values) schema.required
      × All (λ f. validate_field x v values f ≡ pass) schema.fields

  check_required_iff :
      (names : List Text) (values : List (Text × Value F))
      → (check_required names values ≡ []) ↔ All (Present values) names
  unfolding check_required
  check_required_iff [] values = (λ h. tt, λ h. refl)
  check_required_iff (name ∷ rest) values = ground (arith, check_required_iff rest values)

  check_fields_iff :
      (x : External) (v : Options) (values : List (Text × Value F)) (fs : List (FieldValidator F))
      → (check_fields x v values fs ≡ some []) ↔ All (λ f. validate_field x v values f ≡ pass) fs
  unfolding check_fields
  check_fields_iff x v values [] = (λ h. tt, λ h. refl)
  check_fields_iff x v values (f ∷ rest) = ground (arith, check_fields_iff x v values rest)

-- What Middleware does with a request: it goes on to the handler, or answers 400 with the errors,
-- or panics.
pub data Answer : Type 0 where
  go_on panicked : Answer
  bad_request : List Problem → Answer

abbrev answer_to : Option (List Problem) → Answer
answer_to none = panicked
answer_to (some []) = go_on
answer_to (some (p ∷ ps)) = bad_request (p ∷ ps)

-- The handler of the answer: `render` is the text of a problem and `id` the identifier of the request.
abbrev pub answer_actions : (render : Problem → Text) → (id : Text) → Answer → Outcome (List Action)
answer_actions render id go_on = done (next ∷ [])
answer_actions render id panicked = Outcome.panicked
answer_actions render id (bad_request ps) = done (
    json 400 (
      ("error", text (codes "validation failed"))
      ∷ ("errors", texts (map render ps))
      ∷ ("request_id", text id)
      ∷ [])
    ∷ [])

answer_to-go_on : (r : Option (List Problem)) → (answer_to r ≡ go_on) ↔ (r ≡ some [])
answer_to-go_on none = (λ h. cc, λ h. cc)
answer_to-go_on (some []) = (λ h. refl, λ h. refl)
answer_to-go_on (some (p ∷ ps)) = (λ h. cc, λ h. cc)

module _ {F : Type 0} ⦃fl : Float64 F⦄ where
  unfoldable pub middleware :
      External → Options → Option (Schema F) → Result (List (Text × Value F)) → Answer
  middleware x v schema bound = answer_to (validate_request x v schema bound)

  -- With a schema, the middleware goes on to the handler exactly where the body was bound to a map
  -- that has every required field and in which every field of the schema passes its check.
  pub middleware-go_on_iff :
      (x : External) (v : Options) (schema : Schema F) (bound : Result (List (Text × Value F)))
      → (middleware x v (some schema) bound ≡ go_on)
        ↔ ((values : List (Text × Value F)) × (bound ≡ ok values) × Meets x v schema values)
  unfolding middleware validate_request
  middleware-go_on_iff x v schema (err e) = (λ h. cc, λ (values, b, m). cc)
  middleware-go_on_iff x v schema (ok values) =
      let missed = check_required schema.required values in
      let checked = check_fields x v values schema.fields in
      let split = behind_iff missed checked in
      let go = answer_to-go_on (behind missed checked) in
      let required = check_required_iff schema.required values in
      let fields = check_fields_iff x v values schema.fields in
      (
        λ h. let (p, q) = split.0 (go.0 h) in (values, refl, (required.0 p, fields.0 q)),
        λ (others, b, m).
            let (p, q) = subst (Meets x v schema) (sym (ap bound_map b)) m in
            go.1 (split.1 (required.1 p, fields.1 q)),
      )
