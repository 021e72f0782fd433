-- ===== src/Validation/Ranges.antt =====
-- What the range, length and type checks of middleware/validation/validation.go let pass.
use gateway_a.Prelude.{
  ℤ, pos, ◌≤ℤ◌, ◌<ℤ◌, ltb_ℤ, length, Text, text_eq, Bool, true, ◌&&◌, Option, none, some, [], ◌∷◌,
  if◌then◌else◌, ◌==◌, Float64, arith, ◌≡◌, ◌≢◌, refl, ◌↔◌,
}
use gateway_a.Validation.{
  Items, Options, FieldValidator, Complaint, Check, External, int, int32, int64, array,
  items_length, ◌andthen◌, refuse_if, pass, fail, panic,
}
use gateway_a.Validation.Checks.{
  validate_string, validate_array, check_range, validate_int, is_positive, match_pattern,
}

-- A bound that is not positive is no bound.
abbrev pub AtLeast : ℤ → ℤ → Type 0
AtLeast bound n = pos 0 <ℤ bound → bound ≤ℤ n

abbrev pub AtMost : ℤ → ℤ → Type 0
AtMost bound n = pos 0 <ℤ bound → n ≤ℤ bound

andthen-pass : (a b : Check) → ((a andthen b) ≡ pass) ↔ ((a ≡ pass) × (b ≡ pass))
andthen-pass pass b = (λ h. (refl, h), λ (g, h). h)
andthen-pass (fail c) b = (λ h. (h, cc), λ (g, h). g)
andthen-pass panic b = (λ h. (h, cc), λ (g, h). g)

at_least :
    (bound n : ℤ) (c : Complaint)
    → (refuse_if (is_positive bound && ltb_ℤ n bound) c ≡ pass) ↔ AtLeast bound n
at_least bound n c = (λ h. ground arith, λ h. ground arith)

at_most :
    (bound n : ℤ) (c : Complaint)
    → (refuse_if (is_positive bound && ltb_ℤ bound n) c ≡ pass) ↔ AtMost bound n
at_most bound n c = (λ h. ground arith, λ h. ground arith)

-- A check and the next one pass exactly where both conditions hold.
both :
    {a b : Check} {A B : Type 0}
    → ((a ≡ pass) ↔ A)
    → ((b ≡ pass) ↔ B)
    → ((a andthen b) ≡ pass) ↔ (A × B)
both {a} {b} f g = (
  λ h. let (p, q) = (andthen-pass a b).0 h in (f.0 p, g.0 q),
  λ (p, q). (andthen-pass a b).1 (f.1 p, g.1 q),
)

-- The text matches the pattern, if there is one.
abbrev pub Matches : External → Text → Text → Type 0
Matches x pattern s =
    pattern ≢ [] → (matches : Text → Bool) × (x.compile pattern ≡ some matches) × (matches s ≡ true)

match_pattern_iff :
    (p : Option (Text → Bool)) (s : Text)
    → (match_pattern p s ≡ pass)
      ↔ ((matches : Text → Bool) × (p ≡ some matches) × (matches s ≡ true))
match_pattern_iff none s = (λ h. cc, λ (m, e, h). cc)
match_pattern_iff (some m) s = (λ h. (m, refl, ground arith), λ (n, e, h). cc)

pattern_iff :
    (x : External) (pattern s : Text)
    → ((if pattern == [] then pass else match_pattern (x.compile pattern) s) ≡ pass)
      ↔ Matches x pattern s
pattern_iff x [] s = (λ h ne. absurd (ne refl), λ h. refl)
pattern_iff x (c ∷ pattern) s = (
  λ h ne. (match_pattern_iff (x.compile (c ∷ pattern)) s).0 h,
  λ h. (match_pattern_iff (x.compile (c ∷ pattern)) s).1 (h (λ e. cc)),
)

module _ {F : Type 0} where
  -- The limits that an integer meets: the field's, and the validator's.
  abbrev pub IntWithin : Options → FieldValidator F → ℤ → Type 0
  IntWithin v f n = ((AtLeast f.min n × AtMost f.max n) × AtLeast v.min_int n) × AtMost v.max_int n

  abbrev pub SizeWithin : FieldValidator F → ℤ → ℤ → Type 0
  SizeWithin f limit size = (AtLeast f.min_len size × AtMost f.max_len size) × AtMost limit size

  check_range_iff :
      (v : Options) (n : ℤ) (f : FieldValidator F) → (check_range v n f ≡ pass) ↔ IntWithin v f n
  unfolding check_range
  check_range_iff v n f =
      both (both (both (at_least f.min n _) (at_most f.max n _)) (at_least v.min_int n _))
        (at_most v.max_int n _)

  size_iff :
      (f : FieldValidator F) (limit size : ℤ) (c c' c'' : Complaint)
      → ((refuse_if (is_positive f.min_len && ltb_ℤ size f.min_len) c
            andthen refuse_if (is_positive f.max_len && ltb_ℤ f.max_len size) c'
            andthen refuse_if (is_positive limit && ltb_ℤ limit size) c'')
          ≡ pass)
        ↔ SizeWithin f limit size
  size_iff f limit size c c' c'' =
      both (both (at_least f.min_len size c) (at_most f.max_len size c')) (at_most limit size c'')

  -- An array passes exactly where its length is within the field's limits and the validator's; a
  -- limit that is not positive is none.
  pub validate_array_iff :
      (v : Options) (vs : Items F) (f : FieldValidator F)
      → (validate_array v (array vs) f ≡ pass)
        ↔ SizeWithin f v.max_array_len (pos (items_length vs))
  unfolding validate_array
  validate_array_iff v vs f = size_iff f v.max_array_len (pos (items_length vs)) _ _ _

  -- A text that is not empty passes exactly where its length in bytes is within the field's limits
  -- and the validator's and it matches the field's pattern, if there is one; the pattern has to
  -- compile.
  pub validate_string_iff :
      (x : External) (v : Options) (s : Text) (f : FieldValidator F)
      → s ≢ []
      → (validate_string x v s f ≡ pass)
        ↔ (SizeWithin f v.max_string_len (pos (length s)) × Matches x f.pattern s)
  unfolding validate_string
  validate_string_iff x v [] f h = absurd (h refl)
  validate_string_iff x v (c ∷ s) f h =
      both (size_iff f v.max_string_len (pos (length (c ∷ s))) _ _ _)
        (pattern_iff x f.pattern (c ∷ s))

module _ {F : Type 0} ⦃fl : Float64 F⦄ where
  -- An integer, of each of the three types, passes exactly where it is within the field's limits
  -- and the validator's; a limit that is not positive is none, so that a field cannot demand a
  -- number that is not negative.
  pub validate_int_iff :
      (v : Options) (n : ℤ) (f : FieldValidator F)
      → ((validate_int v (int n) f ≡ pass) ↔ IntWithin v f n)
        × ((validate_int v (int32 n) f ≡ pass) ↔ IntWithin v f n)
        × ((validate_int v (int64 n) f ≡ pass) ↔ IntWithin v f n)
  unfolding validate_int
  validate_int_iff v n f = (check_range_iff v n f, check_range_iff v n f, check_range_iff v n f)
