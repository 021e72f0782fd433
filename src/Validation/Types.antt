-- ===== src/Validation/Types.antt =====
-- Which values of a request the validation of middleware/validation/validation.go lets through, by the
-- types that a schema declares.
use gateway_a.Prelude.{
  Text, text_eq, true, Option, none, some, List, [], ◌∷◌, All, lookup, Result, ok, Float64, ◌≡◌,
  refl, arith,
}
use gateway_a.Validation.{
  Value, FieldType, FieldValidator, Options, External, Check, bool, int, int32, int64, float,
  string, array, object, string_type, int_type, float_type, bool_type, array_type, object_type,
  email_type, url_type, ip_type, ipv6_type, hostname_type, apikey_type, other_type, pass, fail,
  panic, ◌andthen◌, refuse_if, is_required,
}
use gateway_a.Validation.Checks.{
  check_text, check_float, check_bool, check_array, check_object, check_enum, validate_type,
  validate_field, validate_int, check_by_type, check_value, float_eq,
}
use gateway_a.Validation.Requests.{Schema, go_on, middleware, middleware-go_on_iff}

andthen-pass : (a b c : Check) → (a andthen b andthen c) ≡ pass → (a ≡ pass) × (b ≡ pass)
andthen-pass pass pass c h = (refl, refl)
andthen-pass pass (fail e) c h = absurd (ground (arith, h))
andthen-pass pass panic c h = absurd (ground (arith, h))
andthen-pass (fail e) b c h = absurd (ground (arith, h))
andthen-pass panic b c h = absurd (ground (arith, h))

module _ {F : Type 0} where
  abbrev pub IsText : Value F → Type 0
  IsText (string s) = Unit
  IsText _ = ⊥

  abbrev pub IsFloat : Value F → Type 0
  IsFloat (float x) = Unit
  IsFloat _ = ⊥

  abbrev pub IsBool : Value F → Type 0
  IsBool (bool b) = Unit
  IsBool _ = ⊥

  abbrev pub IsArray : Value F → Type 0
  IsArray (array vs) = Unit
  IsArray _ = ⊥

  abbrev pub IsObject : Value F → Type 0
  IsObject (object fs) = Unit
  IsObject _ = ⊥

  check_text-IsText : (v : Value F) → check_text v ≡ pass → IsText v
  check_text-IsText (string s) h = tt
  check_text-IsText _ h = absurd (ground (arith, h))

  check_float-IsFloat : (v : Value F) → check_float v ≡ pass → IsFloat v
  check_float-IsFloat (float x) h = tt
  check_float-IsFloat _ h = absurd (ground (arith, h))

  check_bool-IsBool : (v : Value F) → check_bool v ≡ pass → IsBool v
  check_bool-IsBool (bool b) h = tt
  check_bool-IsBool _ h = absurd (ground (arith, h))

  check_array-IsArray : (v : Value F) → check_array v ≡ pass → IsArray v
  check_array-IsArray (array vs) h = tt
  check_array-IsArray _ h = absurd (ground (arith, h))

  check_object-IsObject : (v : Value F) → check_object v ≡ pass → IsObject v
  check_object-IsObject (object fs) h = tt
  check_object-IsObject _ h = absurd (ground (arith, h))

module _ {F : Type 0} ⦃fl : Float64 F⦄ where
  -- An integer, or a float that is one.
  abbrev pub IsWhole : Value F → Type 0
  IsWhole (int n) = Unit
  IsWhole (int32 n) = Unit
  IsWhole (int64 n) = Unit
  IsWhole (float x) = float_eq x (fl.of_int (fl.truncate x)) ≡ true
  IsWhole _ = ⊥

  -- The value has the type that a schema names; a name that the code does not know asks for nothing.
  abbrev pub HasType : FieldType → Value F → Type 0
  HasType string_type v = IsText v
  HasType int_type v = IsWhole v
  HasType float_type v = IsFloat v
  HasType bool_type v = IsBool v
  HasType array_type v = IsArray v
  HasType object_type v = IsObject v
  HasType email_type v = IsText v
  HasType url_type v = IsText v
  HasType ip_type v = IsText v
  HasType ipv6_type v = IsText v
  HasType hostname_type v = IsText v
  HasType apikey_type v = IsText v
  HasType other_type v = Unit

  abbrev pub Typed : FieldType → Option (Value F) → Type 0
  Typed t none = Unit
  Typed t (some v) = HasType t v

  validate_int-IsWhole :
      (o : Options) (v : Value F) (f : FieldValidator F) → validate_int o v f ≡ pass → IsWhole v
  unfolding validate_int
  validate_int-IsWhole o (int n) f h = tt
  validate_int-IsWhole o (int32 n) f h = tt
  validate_int-IsWhole o (int64 n) f h = tt
  validate_int-IsWhole o (float x) f h = ground (arith, h)
  validate_int-IsWhole o _ f h = absurd (ground (arith, h))

  check_by_int-IsWhole :
      (x : External) (o : Options) (v : Value F) (f : FieldValidator F)
      → check_by_type x o v f int_type ≡ pass
      → IsWhole v
  check_by_int-IsWhole x o (string s) f h = validate_int-IsWhole o (string s) f h
  check_by_int-IsWhole x o v f h = validate_int-IsWhole o v f h

  check_by_type-HasType :
      (x : External) (o : Options) (v : Value F) (f : FieldValidator F) (t : FieldType)
      → validate_type v t ≡ pass
      → check_by_type x o v f t ≡ pass
      → HasType t v
  unfolding validate_type
  check_by_type-HasType x o v f string_type h k = check_text-IsText v h
  check_by_type-HasType x o v f int_type h k = check_by_int-IsWhole x o v f k
  check_by_type-HasType x o v f float_type h k = check_float-IsFloat v h
  check_by_type-HasType x o v f bool_type h k = check_bool-IsBool v h
  check_by_type-HasType x o v f array_type h k = check_array-IsArray v h
  check_by_type-HasType x o v f object_type h k = check_object-IsObject v h
  check_by_type-HasType x o v f email_type h k = check_text-IsText v h
  check_by_type-HasType x o v f url_type h k = check_text-IsText v h
  check_by_type-HasType x o v f ip_type h k = check_text-IsText v h
  check_by_type-HasType x o v f ipv6_type h k = check_text-IsText v h
  check_by_type-HasType x o v f hostname_type h k = check_text-IsText v h
  check_by_type-HasType x o v f apikey_type h k = check_text-IsText v h
  check_by_type-HasType x o v f other_type h k = tt

  -- What validateField makes of the value found.
  abbrev pub checked : External → Options → FieldValidator F → Option (Value F) → Check
  checked x o f none = refuse_if f.required is_required
  checked x o f (some w) = check_value x o w f

  checked-Typed :
      (x : External) (o : Options) (f : FieldValidator F) (found : Option (Value F))
      → checked x o f found ≡ pass
      → Typed f.type found
  checked-Typed x o f none h = tt
  checked-Typed x o f (some w) h =
      let (a, b) =
        andthen-pass (validate_type w f.type) (check_by_type x o w f f.type)
          (check_enum w f.allowed) h in
      check_by_type-HasType x o w f f.type a b

  fields-Typed :
      (x : External) (o : Options) (values : List (Text × Value F)) (fs : List (FieldValidator F))
      → All (λ f. validate_field x o values f ≡ pass) fs
      → All (λ (f : FieldValidator F). Typed f.type (lookup f.name values)) fs
  unfolding validate_field
  fields-Typed x o values [] h = tt
  fields-Typed x o values (f ∷ fs) h =
      (checked-Typed x o f (lookup f.name values) h.0, fields-Typed x o values fs h.1)

  -- A request that validation lets through was bound to a map in which every field of the schema that is
  -- there has the type that the schema declares: a text for the types with a pattern, and for an int an
  -- integer or a float without a fraction.
  pub middleware-Typed :
      (x : External) (o : Options) (schema : Schema F) (bound : Result (List (Text × Value F)))
      → middleware x o (some schema) bound ≡ go_on
      → (values : List (Text × Value F)) × (bound ≡ ok values)
        × All (λ (f : FieldValidator F). Typed f.type (lookup f.name values)) schema.fields
  middleware-Typed x o schema bound h =
      let (values, b, meets) = (middleware-go_on_iff x o schema bound).0 h in
      (values, b, fields-Typed x o values schema.fields meets.1)
