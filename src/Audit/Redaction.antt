-- ===== src/Audit/Redaction.antt =====
-- What redactFields of middleware/audit/audit.go hides.
use gateway_a.Prelude.{
  ℕ, leb, Text, text_eq, codes, Bool, true, false, ◌&&◌, Option, none, some, List, [], ◌∷◌, ◌++◌,
  All, lookup, contains, text_contains, text_contains-split, text_contains-append, ◌≡◌, refl, ◌↔◌,
  ap, ◌∙◌, arith, if◌then◌else◌, Bool-cases, inl, inr, beq_refl, text_beq_iff,
}
use gateway_a.Audit.{is_sensitive, redact_fields, redacted}

-- Some configured field stands somewhere in the key.
abbrev pub Occurs : List Text → Text → Type 0
Occurs fields key =
    (field : Text) × (contains fields field ≡ true)
    × (before : Text) × (after : Text) × (key ≡ before ++ (field ++ after))

is_sensitive-Occurs :
    (fields : List Text) (key : Text) → is_sensitive fields key ≡ true → Occurs fields key
unfolding is_sensitive contains
is_sensitive-Occurs [] key h = cc
is_sensitive-Occurs (field ∷ rest) key h = elim (Bool-cases (text_contains key field)) [
  | inl found ↦
      let (before, after, e) = text_contains-split key field found in
      (field, rw (beq_refl field) refl, before, after, e)
  | inr missed ↦
      let (other, listed, before, after, e) = is_sensitive-Occurs rest key (ground arith) in
      (other, ground (arith, listed), before, after, e)
]

Occurs-is_sensitive :
    (fields : List Text) (key : Text) → Occurs fields key → is_sensitive fields key ≡ true
unfolding is_sensitive contains
Occurs-is_sensitive [] key (field, listed, before, after, e) = cc
Occurs-is_sensitive (f ∷ rest) key (field, listed, before, after, e) =
    let found : text_contains key field ≡ true =
      ap (λ k. text_contains k field) e ∙ text_contains-append before field after in
    ground (
      arith,
      found,
      text_beq_iff field f,
      λ (l : contains rest field ≡ true). Occurs-is_sensitive rest key (field, l, before, after, e),
    )

abbrev is_upper : ℕ → Bool
is_upper c = leb b'A' c && leb c b'Z'

abbrev pub NoUpper : Text → Type 0
NoUpper = All (λ c. is_upper c ≡ false)

module _ {V : Type 0} (to_lower : Text → Text) (of_string : Text → V) where
  abbrev mask : Option V → Option V
  mask none = none
  mask (some v) = some (redacted to_lower of_string)

  -- A look-up in the redacted map finds the same keys: a key whose lower-case form contains a
  -- configured field has the placeholder, and every other key has its value unchanged.
  pub lookup-redact_fields :
      (fields : List Text) (entries : List (Text × V)) (key : Text)
      → lookup key (redact_fields to_lower of_string fields entries) ≡ (
          if is_sensitive fields (to_lower key)
          then mask (lookup key entries)
          else lookup key entries)
  unfolding redact_fields lookup
  lookup-redact_fields fields [] key = ground arith
  lookup-redact_fields fields ((k, v) ∷ rest) key =
      ground (arith, lookup-redact_fields fields rest key, text_beq_iff k key)

  -- Each entry of a redacted map whose key contains a configured field holds the placeholder.
  abbrev pub Masked : List Text → Text × V → Type 0
  Masked fields entry =
      is_sensitive fields (to_lower entry.0) ≡ true → entry.1 ≡ redacted to_lower of_string

  pub redact_fields-Masked :
      (fields : List Text) (entries : List (Text × V))
      → All (Masked fields) (redact_fields to_lower of_string fields entries)
  unfolding redact_fields
  redact_fields-Masked fields [] = tt
  redact_fields-Masked fields ((k, v) ∷ rest) = ((λ h. rw h refl), redact_fields-Masked fields rest)

  -- An entry whose key contains a configured field, in lower case, holds the placeholder.
  abbrev pub Hidden : List Text → Text × V → Type 0
  Hidden fields entry =
      Occurs fields (to_lower entry.0) → entry.1 ≡ of_string (codes "***REDACTED***")

  Masked-Hidden :
      (fields : List Text) (entries : List (Text × V))
      → All (Masked fields) entries
      → All (Hidden fields) entries
  Masked-Hidden fields [] h = tt
  Masked-Hidden fields ((k, v) ∷ rest) (h, hs) =
      ((λ occurs. h (Occurs-is_sensitive fields (to_lower k) occurs)), Masked-Hidden fields rest hs)

  pub redact_fields-Hidden :
      (fields : List Text) (entries : List (Text × V))
      → All (Hidden fields) (redact_fields to_lower of_string fields entries)
  redact_fields-Hidden fields entries = Masked-Hidden fields _ (redact_fields-Masked fields entries)

  NoUpper-part : (before field after : Text) → NoUpper (before ++ (field ++ after)) → NoUpper field
  NoUpper-part [] [] after h = tt
  NoUpper-part [] (c ∷ field) after h = (h.0, NoUpper-part [] field after h.1)
  NoUpper-part (c ∷ before) field after h = NoUpper-part before field after h.1

  upper_field-missed :
      (fields : List Text) (key : Text)
      → NoUpper (to_lower key)
      → All (λ field. ¬ NoUpper field) fields
      → is_sensitive fields (to_lower key) ≡ false
  unfolding is_sensitive
  upper_field-missed [] key low ups = refl
  upper_field-missed (field ∷ rest) key low (up, ups) =
      elim (Bool-cases (text_contains (to_lower key) field)) [
        | inl found ↦
            let (before, after, e) = text_contains-split (to_lower key) field found in
            absurd (up (NoUpper-part before field after (rw (← e) low)))
        | inr missed ↦ rw missed (upper_field-missed rest key low ups)
      ]

  -- Configured fields are not lower-cased: if each of them has an upper-case ASCII letter, and
  -- lower-casing leaves no such letter, then nothing at all is redacted.
  pub redact_fields_upper :
      (fields : List Text) (entries : List (Text × V))
      → ((key : Text) → NoUpper (to_lower key))
      → All (λ field. ¬ NoUpper field) fields
      → redact_fields to_lower of_string fields entries ≡ entries
  unfolding redact_fields
  redact_fields_upper fields [] low ups = refl
  redact_fields_upper fields ((k, v) ∷ rest) low ups =
      rw (upper_field-missed fields k (low k) ups)
        (ap (λ es. (k, v) ∷ es) (redact_fields_upper fields rest low ups))

-- A key is hidden exactly when some configured field occurs in its lower-case form.
pub is_sensitive_iff :
    (fields : List Text) (key : Text) → (is_sensitive fields key ≡ true) ↔ Occurs fields key
is_sensitive_iff fields key = (is_sensitive-Occurs fields key, Occurs-is_sensitive fields key)
