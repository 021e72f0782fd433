-- ===== src/Validation/Tests.antt =====
-- The theorems on validation at the limits of a chat completion request.
use gateway_a.Prelude.{ℤ, pos, negsuc, codes, true, false, none, some, [], ◌≡◌}
use gateway_a.Prelude.{text_eq, refl, List, ◌∷◌, Text, some, All, Result, ok, lookup}
use gateway_a.Validation.Requests.{
  Schema, missing, go_on, bad_request, middleware, validate_request,
}
use gateway_a.Validation.Sanitize.{sanitize_text}
use gateway_a.Samples.{whole}
use gateway_a.Validation.{
  Value, string, array, float, Items, nil, cons, int, FieldValidator, default_options, External,
  int_type,
}
use gateway_a.Validation.Checks.{
  validate_field, validate_type, validate_string, validate_array, validate_float,
}
use gateway_a.Validation.Schemas.{
  llm_chat_completion_schema, ModelText, MessageList, llm_chat_completion_schema-bounds,
}
use gateway_a.Validation.Types.{Typed, middleware-Typed}
use gateway_a.Validation.Nested.{Clean, sanitize_input, sanitize_input-Clean}

-- A number of retries from -3 to 5.
abbrev retries : FieldValidator ℤ
retries = record {
  name = codes "max_retries";
  required = false;
  type = int_type;
  pattern = [];
  min = negsuc 2;
  max = pos 5;
  min_len = pos 1;
  max_len = pos 4;
  allowed = none;
}

abbrev outside : External
outside = record {
  email_pattern = λ s. true;
  hostname_pattern = λ s. true;
  compile = λ p. some (λ s. true);
  parses_as_url = λ s. true;
  parse_ip = λ s. none;
}

abbrev two_items : Items ℤ
two_items = cons (int (pos 1)) (cons (int (pos 2)) nil)

-- A request of one number of retries, and one with the number missing.
abbrev schema : Schema ℤ
schema = record { fields = retries ∷ []; required = codes "max_retries" ∷ [] }

abbrev values : List (Text × Value ℤ)
values = (codes "max_retries", int (pos 3)) ∷ []

missing_retries :
    middleware outside default_options (some schema) (ok [])
    ≡ bad_request (missing (codes "max_retries") ∷ [])
unfolding middleware validate_request validate_field lookup
missing_retries = refl

abbrev script : Text
script = codes "a <b>"

sanitized_script : sanitize_text (λ s. s) (pos 10) script ≡ codes "a b"
unfolding sanitize_text
sanitized_script = refl

-- A chat request with a temperature below zero.
abbrev chat : List (Text × Value ℤ)
chat =
    (codes "model", string (codes "m"))
    ∷ (codes "messages", array two_items)
    ∷ (codes "temperature", float (negsuc 4))
    ∷ []

chat_goes_on :
    middleware outside default_options (some llm_chat_completion_schema) (ok chat) ≡ go_on
unfolding middleware validate_request validate_field validate_type validate_string validate_array
    validate_float lookup
chat_goes_on = refl

middleware-Typed_example :
    (vs : List (Text × Value ℤ)) × (◌≡◌ {A = Result (List (Text × Value ℤ))} (ok chat) (ok vs))
    × All
        (λ (f : FieldValidator ℤ). Typed f.type (lookup f.name vs))
        (llm_chat_completion_schema {F = ℤ}).fields
middleware-Typed_example =
    middleware-Typed outside default_options llm_chat_completion_schema (ok chat) chat_goes_on

sanitize_input-Clean_example :
    Clean (sanitize_input (λ s. s) default_options (array (cons (string script) two_items)))
sanitize_input-Clean_example =
    sanitize_input-Clean (λ s. s) default_options (array (cons (string script) two_items)) refl

llm_chat_completion_schema-bounds_example :
    (vs : List (Text × Value ℤ)) × (◌≡◌ {A = Result (List (Text × Value ℤ))} (ok chat) (ok vs))
    × ModelText (lookup (codes "model") vs)
    × MessageList (lookup (codes "messages") vs)
llm_chat_completion_schema-bounds_example =
    llm_chat_completion_schema-bounds outside (ok chat) chat_goes_on
