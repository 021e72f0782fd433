-- ===== src/Audit/Sanitizing.antt =====
-- SanitizeInput and AuditAction of middleware/audit/audit.go, and its store in a database.
use gateway_a.Prelude.{
  Text, Bool, Option, none, some, List, [], ◌∷◌, ◌≡◌, refl, arith, Error, if◌then◌else◌,
  text_contains, true, false,
}
use gateway_a.Audit.{string, Exchange, redacted, redact_fields, is_sensitive}

-- The loop over the fields, with its flag.
abbrev sensitive_loop : Text → Bool → List Text → Bool
sensitive_loop lower_key flag [] = flag
sensitive_loop lower_key flag (field ∷ rest) =
    let later = sensitive_loop lower_key flag rest in
    if text_contains lower_key field then true else later

module _ {V : Type 0} (to_lower : Text → Text) (of_string : Text → V) where
  unfoldable pub sanitize_input : List (Text × V) → List Text → List (Text × V)
  sanitize_input [] fields = []
  sanitize_input ((key, value) ∷ input) fields =
      (
        key,
        if sensitive_loop (to_lower key) false fields then redacted to_lower of_string else value,
      )
      ∷ sanitize_input input fields

-- Save and BatchSave of the store in a database, which keep nothing.
unfoldable pub database_save {ℓ} : {E : Type ℓ} → (enabled : Bool) → E → Option Error
database_save enabled event = none

-- AuditAction: the request as the handlers behind it find it.
unfoldable pub audit_action : Text → Exchange → Exchange
audit_action action x = record x { audit_action = some (string action) }

sensitive_loop-is_sensitive :
    (fields : List Text) (key : Text) → sensitive_loop key false fields ≡ is_sensitive fields key
unfolding is_sensitive
sensitive_loop-is_sensitive [] key = refl
sensitive_loop-is_sensitive (f ∷ fields) key =
    ground (arith, sensitive_loop-is_sensitive fields key)

module _ {V : Type 0} (to_lower : Text → Text) (of_string : Text → V) where
  -- SanitizeInput redacts what the logger with these fields redacts.
  pub sanitize_input-redact_fields :
      (input : List (Text × V)) (fields : List Text)
      → sanitize_input to_lower of_string input fields
        ≡ redact_fields to_lower of_string fields input
  unfolding sanitize_input redact_fields
  sanitize_input-redact_fields [] fields = refl
  sanitize_input-redact_fields ((key, value) ∷ input) fields = ground (
    arith,
    sensitive_loop-is_sensitive fields (to_lower key),
    sanitize_input-redact_fields input fields,
  )
