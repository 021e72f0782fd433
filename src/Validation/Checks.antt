-- ===== src/Validation/Checks.antt =====
-- middleware/validation/validation.go: the checks of one field.
use gateway_a.Prelude.{
  ℕ, ℤ, pos, ltb_ℤ, leb_ℤ, leb, length, all, Text, text_eq, codes, has_prefix, Bool, true, false,
  not, ◌&&◌, ◌||◌, Option, none, some, List, [], ◌∷◌, if◌then◌else◌, ◌==◌, lookup, Float64, nat_eq,
}
use gateway_a.Validation.{
  Value, FieldType, Options, FieldValidator, Check, External, null, bool, int, int32, int64, float,
  string, array, object, items_length, ◌andthen◌, refuse_if, string_type, int_type, float_type,
  bool_type, array_type, object_type, email_type, url_type, ip_type, ipv6_type, hostname_type,
  apikey_type, other_type, is_required, wrong_type, cannot_be_empty, too_short, too_long,
  over_limit, no_match, not_an_integer, below_min, above_max, below_limit, above_limit, bad_email,
  bad_url, unparseable_url, bad_ip, bad_ipv6, bad_hostname, bad_apikey, not_allowed, pass, fail,
  panic,
}

-- `==` on integers.
abbrev pub int_eq : ℤ → ℤ → Bool
int_eq m n = leb_ℤ m n && leb_ℤ n m

abbrev pub is_positive : ℤ → Bool
is_positive z = ltb_ℤ (pos 0) z

-- `^https?://`
unfoldable pub url_pattern : Text → Bool
url_pattern s = has_prefix s (codes "http://") || has_prefix s (codes "https://")

-- `^[a-zA-Z0-9_-]{20,}$`
abbrev pub apikey_char : ℕ → Bool
apikey_char c =
    (leb b'a' c && leb c b'z')
    || ((leb b'A' c && leb c b'Z') || ((leb b'0' c && leb c b'9') || ((c == b'_') || (c == b'-'))))

unfoldable pub apikey_pattern : Text → Bool
apikey_pattern s = all apikey_char s && leb 20 (length s)

abbrev pub match_pattern : Option (Text → Bool) → Text → Check
match_pattern none s = panic
match_pattern (some matches) s = refuse_if (not (matches s)) no_match

abbrev pub check_ipv6 : Option Bool → Check
check_ipv6 none = fail bad_ipv6
check_ipv6 (some four_bytes) = refuse_if four_bytes bad_ipv6

abbrev pub check_ip : Option Bool → Check
check_ip none = fail bad_ip
check_ip (some four_bytes) = pass

module _ {F : Type 0} where
  abbrev pub check_text : Value F → Check
  check_text (string s) = pass
  check_text _ = fail wrong_type

  abbrev pub check_number : Value F → Check
  check_number (int n) = pass
  check_number (int32 n) = pass
  check_number (int64 n) = pass
  check_number (float x) = pass
  check_number _ = fail wrong_type

  abbrev pub check_float : Value F → Check
  check_float (float x) = pass
  check_float _ = fail wrong_type

  abbrev pub check_bool : Value F → Check
  check_bool (bool b) = pass
  check_bool _ = fail wrong_type

  abbrev pub check_array : Value F → Check
  check_array (array vs) = pass
  check_array _ = fail wrong_type

  abbrev pub check_object : Value F → Check
  check_object (object fs) = pass
  check_object _ = fail wrong_type

  -- validateType.
  unfoldable pub validate_type : Value F → FieldType → Check
  validate_type v string_type = check_text v
  validate_type v int_type = check_number v
  validate_type v float_type = check_float v
  validate_type v bool_type = check_bool v
  validate_type v array_type = check_array v
  validate_type v object_type = check_object v
  validate_type v email_type = check_text v
  validate_type v url_type = check_text v
  validate_type v ip_type = check_text v
  validate_type v ipv6_type = check_text v
  validate_type v hostname_type = check_text v
  validate_type v apikey_type = check_text v
  validate_type v other_type = pass

  -- validateString.
  unfoldable pub validate_string : External → Options → Text → FieldValidator F → Check
  validate_string x v [] f = refuse_if (not v.allow_empty_string && f.required) cannot_be_empty
  validate_string x v (c ∷ s) f =
      let size = pos (length (c ∷ s)) in
      refuse_if (is_positive f.min_len && ltb_ℤ size f.min_len) too_short
      andthen refuse_if (is_positive f.max_len && ltb_ℤ f.max_len size) too_long
      andthen refuse_if (is_positive v.max_string_len && ltb_ℤ v.max_string_len size) over_limit
      andthen (if f.pattern == [] then pass else match_pattern (x.compile f.pattern) (c ∷ s))

  -- validateArray.
  unfoldable pub validate_array : Options → Value F → FieldValidator F → Check
  validate_array v (array vs) f =
      let size = pos (items_length vs) in
      refuse_if (is_positive f.min_len && ltb_ℤ size f.min_len) too_short
      andthen refuse_if (is_positive f.max_len && ltb_ℤ f.max_len size) too_long
      andthen refuse_if (is_positive v.max_array_len && ltb_ℤ v.max_array_len size) over_limit
  validate_array v _ f = fail wrong_type

  -- The range checks of validateInt.
  unfoldable pub check_range : Options → ℤ → FieldValidator F → Check
  check_range v n f =
      refuse_if (is_positive f.min && ltb_ℤ n f.min) below_min
      andthen refuse_if (is_positive f.max && ltb_ℤ f.max n) above_max
      andthen refuse_if (is_positive v.min_int && ltb_ℤ n v.min_int) below_limit
      andthen refuse_if (is_positive v.max_int && ltb_ℤ v.max_int n) above_limit

module _ {F : Type 0} ⦃fl : Float64 F⦄ where
  -- Go's `==` on floats, which no NaN satisfies.
  abbrev pub float_eq : F → F → Bool
  float_eq x y = fl.fle x y && fl.fle y x

  -- validateInt.
  unfoldable pub validate_int : Options → Value F → FieldValidator F → Check
  unfolding check_range
  validate_int v (int n) f = check_range v n f
  validate_int v (int32 n) f = check_range v n f
  validate_int v (int64 n) f = check_range v n f
  validate_int v (float x) f =
      if not (float_eq x (fl.of_int (fl.truncate x)))
      then fail not_an_integer
      else check_range v (fl.truncate x) f
  validate_int v _ f = fail wrong_type

  -- validateFloat.
  unfoldable pub validate_float : Value F → FieldValidator F → Check
  validate_float (float x) f =
      refuse_if (is_positive f.min && fl.flt x (fl.of_int f.min)) below_min
      andthen refuse_if (is_positive f.max && fl.flt (fl.of_int f.max) x) above_max
  validate_float _ f = fail wrong_type

  -- `==` on interface values: it panics on two arrays or two objects.
  unfoldable pub interface_eq : Value F → Value F → Option Bool
  interface_eq null null = some true
  interface_eq (bool true) (bool b) = some b
  interface_eq (bool false) (bool b) = some (not b)
  interface_eq (int m) (int n) = some (int_eq m n)
  interface_eq (int32 m) (int32 n) = some (int_eq m n)
  interface_eq (int64 m) (int64 n) = some (int_eq m n)
  interface_eq (float x) (float y) = some (float_eq x y)
  interface_eq (string s) (string t) = some (s == t)
  interface_eq (array vs) (array ws) = none
  interface_eq (object fs) (object gs) = none
  interface_eq _ _ = some false

  -- The loop over the allowed values.
  unfoldable pub check_allowed : Value F → List (Value F) → Check
  check_allowed v [] = fail not_allowed
  check_allowed v (a ∷ rest) = elim (interface_eq v a) [
    | none ↦ panic
    | some true ↦ pass
    | some false ↦ check_allowed v rest
  ]

  abbrev pub check_enum : Value F → Option (List (Value F)) → Check
  check_enum v none = pass
  check_enum v (some allowed) = check_allowed v allowed

  -- A check of a value that is a string; it passes on any other.
  abbrev pub on_text : Value F → (Text → Check) → Check
  on_text (string s) check = check s
  on_text _ check = pass

  -- The switch on the type. `value.(string)` panics on a value that is no string.
  abbrev pub check_by_type : External → Options → Value F → FieldValidator F → FieldType → Check
  check_by_type x v (string s) f string_type = validate_string x v s f
  check_by_type x v _ f string_type = panic
  check_by_type x v w f int_type = validate_int v w f
  check_by_type x v w f float_type = validate_float w f
  check_by_type x v w f array_type = validate_array v w f
  check_by_type x v w f email_type = on_text w (λ s. refuse_if (not (x.email_pattern s)) bad_email)
  check_by_type x v w f url_type = on_text w (λ s.
      refuse_if (not (url_pattern s)) bad_url
      andthen refuse_if (not (x.parses_as_url s)) unparseable_url)
  check_by_type x v w f ip_type = on_text w (λ s. check_ip (x.parse_ip s))
  check_by_type x v w f ipv6_type = on_text w (λ s. check_ipv6 (x.parse_ip s))
  check_by_type x v w f hostname_type =
      on_text w (λ s. refuse_if (not (x.hostname_pattern s)) bad_hostname)
  check_by_type x v w f apikey_type = on_text w (λ s. refuse_if (not (apikey_pattern s)) bad_apikey)
  check_by_type x v w f _ = pass

  abbrev pub check_value : External → Options → Value F → FieldValidator F → Check
  check_value x v w f =
      validate_type w f.type andthen check_by_type x v w f f.type andthen check_enum w f.allowed

  -- validateField.
  unfoldable pub validate_field :
      External → Options → List (Text × Value F) → FieldValidator F → Check
  unfolding url_pattern check_allowed
  validate_field x v values f = elim (lookup f.name values) [
    | none ↦ refuse_if f.required is_required
    | some w ↦ check_value x v w f
  ]
