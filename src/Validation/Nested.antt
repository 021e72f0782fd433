-- ===== src/Validation/Nested.antt =====
-- SanitizeInput of middleware/validation/validation.go, on values of any depth. The fields of an object
-- are in the order in which Go ranges over the map; of two keys that are sanitized to one text the
-- later value stays.
use gateway_a.Prelude.{Text, text_eq, true, not, if◌then◌else◌, if-both, ◌==◌, All, ◌≡◌}
use gateway_a.Validation.{
  Value, Items, Fields, null, bool, int, int32, int64, float, string, array, object, nil, cons, end,
  field, Options,
}
use gateway_a.Validation.Sanitize.{sanitize_text, Harmless, sanitize_text_lem}

abbrev pub put_field : {F : Type 0} → Text → Value F → Fields F → Fields F
put_field key v end = field key v end
put_field key v (field k w rest) =
    let later = put_field key v rest in if k == key then field key v rest else field k w later

unfoldable mutual
  -- The switch on the type of the value.
  pub sanitize : {F : Type 0} → (Text → Text) → Value F → Value F
  sanitize text (string s) = string (text s)
  sanitize text (array vs) = array (sanitize_items text vs)
  sanitize text (object fs) = object (sanitize_fields text fs end)
  sanitize text null = null
  sanitize text (bool b) = bool b
  sanitize text (int n) = int n
  sanitize text (int32 n) = int32 n
  sanitize text (int64 n) = int64 n
  sanitize text (float x) = float x

  pub sanitize_items : {F : Type 0} → (Text → Text) → Items F → Items F
  sanitize_items text nil = nil
  sanitize_items text (cons v vs) = cons (sanitize text v) (sanitize_items text vs)

  -- The loop over a map, with the result so far.
  pub sanitize_fields : {F : Type 0} → (Text → Text) → Fields F → Fields F → Fields F
  sanitize_fields text end done = done
  sanitize_fields text (field k v rest) done =
      sanitize_fields text rest (put_field (text k) (sanitize text v) done)

-- SanitizeInput.
unfoldable pub sanitize_input : {F : Type 0} → (Text → Text) → Options → Value F → Value F
unfolding sanitize
sanitize_input trim_space o v =
    if not o.sanitization then v else sanitize (sanitize_text trim_space o.max_string_len) v

-- Every text in the value, the keys included, is harmless.
mutual
  pub Clean : {F : Type 0} → Value F → Type 0
  Clean (string s) = All Harmless s
  Clean (array vs) = CleanItems vs
  Clean (object fs) = CleanFields fs
  Clean null = Unit
  Clean (bool b) = Unit
  Clean (int n) = Unit
  Clean (int32 n) = Unit
  Clean (int64 n) = Unit
  Clean (float x) = Unit

  pub CleanItems : {F : Type 0} → Items F → Type 0
  CleanItems nil = Unit
  CleanItems (cons v vs) = Clean v × CleanItems vs

  pub CleanFields : {F : Type 0} → Fields F → Type 0
  CleanFields end = Unit
  CleanFields (field k v fs) = All Harmless k × (Clean v × CleanFields fs)

put_field-Clean :
    {F : Type 0} (key : Text) (v : Value F) (fs : Fields F)
    → All Harmless key
    → Clean v
    → CleanFields fs
    → CleanFields (put_field key v fs)
unfolding Clean
put_field-Clean key v end h c d = (h, (c, tt))
put_field-Clean key v (field k w rest) h c (e, (f, g)) =
    if-both CleanFields (k == key) (field key v rest) (field k w (put_field key v rest)) (h, (c, g))
      (e, (f, put_field-Clean key v rest h c g))

mutual
  unfolding sanitize Clean

  sanitize-Clean :
      {F : Type 0} (text : Text → Text)
      → ((s : Text) → All Harmless (text s))
      → (v : Value F) → Clean (sanitize text v)
  sanitize-Clean text h (string s) = h s
  sanitize-Clean text h (array vs) = sanitize_items-Clean text h vs
  sanitize-Clean text h (object fs) = sanitize_fields-Clean text h fs end tt
  sanitize-Clean text h null = tt
  sanitize-Clean text h (bool b) = tt
  sanitize-Clean text h (int n) = tt
  sanitize-Clean text h (int32 n) = tt
  sanitize-Clean text h (int64 n) = tt
  sanitize-Clean text h (float x) = tt

  sanitize_items-Clean :
      {F : Type 0} (text : Text → Text)
      → ((s : Text) → All Harmless (text s))
      → (vs : Items F) → CleanItems (sanitize_items text vs)
  sanitize_items-Clean text h nil = tt
  sanitize_items-Clean text h (cons v vs) =
      (sanitize-Clean text h v, sanitize_items-Clean text h vs)

  sanitize_fields-Clean :
      {F : Type 0} (text : Text → Text)
      → ((s : Text) → All Harmless (text s))
      → (fs done : Fields F) → CleanFields done
      → CleanFields (sanitize_fields text fs done)
  sanitize_fields-Clean text h end done c = c
  sanitize_fields-Clean text h (field k v rest) done c =
      sanitize_fields-Clean text h rest (put_field (text k) (sanitize text v) done)
        (put_field-Clean (text k) (sanitize text v) done (h k) (sanitize-Clean text h v) c)

-- Where sanitization is on, no text in a sanitized value, at any depth and the keys included, has one of
-- the four dangerous characters.
pub sanitize_input-Clean :
    {F : Type 0} (trim_space : Text → Text) (o : Options) (v : Value F)
    → o.sanitization ≡ true
    → Clean (sanitize_input trim_space o v)
unfolding sanitize_input
sanitize_input-Clean trim_space o v on = rw on (
    sanitize-Clean (sanitize_text trim_space o.max_string_len)
      (λ s. (sanitize_text_lem trim_space o.max_string_len s).0) v)
