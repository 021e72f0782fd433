-- ===== src/Validation/Schemas.antt =====
-- The schemas that middleware/validation/validation.go gives for the requests of the gateway.
use gateway_a.Prelude.{
  ℕ, ◌≤◌, pos, Text, text_eq, codes, Bool, true, false, Option, none, some, List, [], ◌∷◌, lookup,
  length, Float64, ◌≡◌, ◌↔◌, sym, ap, ◌∙◌, arith, ok, Result,
}
use gateway_a.Validation.{
  Value, FieldType, FieldValidator, External, default_options, items_length, string, array, float,
  string_type, int_type, float_type, bool_type, array_type, object_type, email_type, pass,
}
use gateway_a.Validation.Checks.{
  validate_field, validate_type, validate_string, validate_array, validate_float,
}
use gateway_a.Validation.Types.{checked}
use gateway_a.Validation.Requests.{Schema, go_on, middleware, middleware-go_on_iff}

-- A validator of which only the name and the type are set.
abbrev pub validator : {F : Type 0} → Text → FieldType → FieldValidator F
validator name type = record {
  name = name;
  required = false;
  type = type;
  pattern = [];
  min = pos 0;
  max = pos 0;
  min_len = pos 0;
  max_len = pos 0;
  allowed = none;
}

module _ {F : Type 0} where
  abbrev sized : FieldType → (required : Bool) → Text → (min_len max_len : ℕ) → FieldValidator F
  sized type required name min_len max_len = record (validator name type) {
    required = required;
    min_len = pos min_len;
    max_len = pos max_len;
  }

  abbrev ranged : FieldType → Text → (min max : ℕ) → FieldValidator F
  ranged type name min max = record (validator name type) { min = pos min; max = pos max }

  abbrev patterned : Text → Text → FieldValidator F
  patterned name pattern = record (validator name string_type) { pattern = pattern }

  abbrev pub model : FieldValidator F
  model = sized string_type true (codes "model") 1 100

  abbrev pub messages : FieldValidator F
  messages = sized array_type true (codes "messages") 1 100

  abbrev pub temperature : FieldValidator F
  temperature = ranged float_type (codes "temperature") 0 2

  abbrev pub llm_chat_completion_schema : Schema F
  llm_chat_completion_schema = record {
    required = codes "model" ∷ codes "messages" ∷ [];
    fields =
        model
        ∷ messages
        ∷ ranged int_type (codes "max_tokens") 1 32000
        ∷ temperature
        ∷ ranged float_type (codes "top_p") 0 1
        ∷ validator (codes "stream") bool_type
        ∷ sized array_type false (codes "stop") 0 4
        ∷ [];
  }

  abbrev pub queue_job_schema : Schema F
  queue_job_schema = record {
    required = codes "job_type" ∷ codes "payload" ∷ [];
    fields =
        sized string_type true (codes "job_type") 1 50
        ∷ record (validator (codes "payload") object_type) { required = true }
        ∷ sized string_type false (codes "queue") 0 50
        ∷ ranged int_type (codes "max_retries") 0 10
        ∷ patterned (codes "timeout") (codes "^\\d+[smh]?$")
        ∷ [];
  }

  abbrev pub health_check_schema : Schema F
  health_check_schema = record { required = []; fields = [] }

  abbrev pub tenant_create_schema : Schema F
  tenant_create_schema = record {
    required = codes "name" ∷ codes "email" ∷ [];
    fields =
        sized string_type true (codes "name") 1 100
        ∷ sized email_type true (codes "email") 0 255
        ∷ record (validator (codes "plan") string_type) {
          allowed = some (
              string (codes "free")
              ∷ string (codes "basic")
              ∷ string (codes "pro")
              ∷ string (codes "enterprise")
              ∷ []);
        }
        ∷ [];
  }

  abbrev pub api_key_create_schema : Schema F
  api_key_create_schema = record {
    required = codes "name" ∷ [];
    fields =
        sized string_type true (codes "name") 1 100
        ∷ patterned (codes "expires_at") (codes "^\\d{4}-\\d{2}-\\d{2}$")
        ∷ [];
  }

  -- A text of 1 to 100 bytes, and a list of 1 to 100 items.
  abbrev pub ModelText : Option (Value F) → Type 0
  ModelText (some (string s)) = (1 ≤ length s) × (length s ≤ 100)
  ModelText _ = ⊥

  abbrev pub MessageList : Option (Value F) → Type 0
  MessageList (some (array vs)) = (1 ≤ items_length vs) × (items_length vs ≤ 100)
  MessageList _ = ⊥

module _ {F : Type 0} ⦃fl : Float64 F⦄ where
  model-ModelText :
      (x : External) (found : Option (Value F))
      → checked x default_options model found ≡ pass
      → ModelText found
  unfolding validate_type validate_string
  model-ModelText x none h = absurd (ground (arith, h))
  model-ModelText x (some (string [])) h = absurd (ground (arith, h))
  model-ModelText x (some (string (c ∷ s))) h = ground (arith, h)
  model-ModelText x (some _) h = absurd (ground (arith, h))

  messages-MessageList :
      (x : External) (found : Option (Value F))
      → checked x default_options messages found ≡ pass
      → MessageList found
  unfolding validate_type validate_array
  messages-MessageList x none h = absurd (ground (arith, h))
  messages-MessageList x (some (array vs)) h = ground (arith, h)
  messages-MessageList x (some _) h = absurd (ground (arith, h))

  -- A chat request that meets the schema, with the default options, has a model of 1 to 100 bytes and 1 to
  -- 100 messages.
  pub llm_chat_completion_schema-bounds :
      (x : External) (bound : Result (List (Text × Value F)))
      → middleware x default_options (some llm_chat_completion_schema) bound ≡ go_on
      → (values : List (Text × Value F)) × (bound ≡ ok values)
        × ModelText (lookup (codes "model") values)
        × MessageList (lookup (codes "messages") values)
  llm_chat_completion_schema-bounds x bound h =
      let (values, b, meets) =
        (middleware-go_on_iff x default_options llm_chat_completion_schema bound).0 h in
      (
        values,
        b,
        model-ModelText x (lookup (codes "model") values) (unfold validate_field in meets.1.0),
        messages-MessageList x (lookup (codes "messages") values)
            (unfold validate_field in meets.1.1.0),
      )

  temperature-checked :
      (x : External) (t : F)
      → (checked x default_options temperature (some (float t)) ≡ pass)
        ↔ (fl.flt (fl.of_int (pos 2)) t ≡ false)
  unfolding validate_type validate_float
  temperature-checked x t = ground arith

  -- A temperature passes its check exactly where it is not above 2: a negative one does, too.
  pub temperature_iff :
      (x : External) (values : List (Text × Value F)) (t : F)
      → lookup (codes "temperature") values ≡ some (float t)
      → (validate_field x default_options values temperature ≡ pass)
        ↔ (fl.flt (fl.of_int (pos 2)) t ≡ false)
  unfolding validate_field validate_type validate_float
  temperature_iff x values t h =
      let same = ap (checked x default_options temperature) h in
      let decided = temperature-checked x t in
      (λ p. decided.0 (sym same ∙ p), λ q. same ∙ decided.1 q)
