-- ===== src/Validation.antt =====
-- middleware/validation/validation.go: values, schemas and the checks of a field. Parameters, for
-- code that is not part of the repository: the compiled e-mail and host name expressions, the
-- compiler of a field's own pattern (`none` is a panic of MustCompile), url.Parse and net.ParseIP.
-- The texts of the error messages are the constructors of `Complaint`.
pub mod Checks
pub mod Ranges
pub mod Requests
pub mod Sanitize
pub mod Schemas
pub mod Types
pub mod Nested
mod Tests
use gateway_a.Prelude.{
  ℕ, suc, ◌-◌, ℤ, pos, negsuc, ltb_ℤ, leb_ℤ, ltb, leb, length, all, Text, text_eq, codes,
  has_prefix, Bool, true, false, not, ◌&&◌, ◌||◌, Option, none, some, List, [], ◌∷◌, ◌++◌,
  if◌then◌else◌, ◌==◌, lookup, contains, Float64, nat_eq,
}

-- The dynamic types of an interface{} value that the code tells apart.
mutual
  pub data Value (F : Type 0) : Type 0 where
    null : Value F
    bool : Bool → Value F
    int int32 int64 : ℤ → Value F
    float : F → Value F
    string : Text → Value F
    array : Items F → Value F
    object : Fields F → Value F

  pub data Items (F : Type 0) : Type 0 where
    nil : Items F
    cons : Value F → Items F → Items F

  pub data Fields (F : Type 0) : Type 0 where
    end : Fields F
    field : Text → Value F → Fields F → Fields F

abbrev pub items_length : {F : Type 0} → Items F → ℕ
items_length nil = 0
items_length (cons v vs) = suc (items_length vs)

-- The names that a schema writes as strings; `other_type` is any other string.
pub data FieldType : Type 0 where
  string_type int_type float_type bool_type array_type object_type : FieldType
  email_type url_type ip_type ipv6_type hostname_type apikey_type other_type : FieldType

pub record Options : Type 0 where
  pub strict_mode : Bool
  pub allow_empty_string : Bool
  pub max_string_len : ℤ
  pub max_int : ℤ
  pub min_int : ℤ
  pub max_array_len : ℤ
  pub sanitization : Bool

abbrev pub default_options : Options
default_options = record {
  strict_mode = true;
  allow_empty_string = false;
  max_string_len = pos 10000;
  max_int = pos 9223372036854775807;
  min_int = negsuc 9223372036854775807;
  max_array_len = pos 1000;
  sanitization = true;
}

pub record FieldValidator (F : Type 0) : Type 0 where
  pub name : Text
  pub required : Bool
  pub type : FieldType
  pub pattern : Text
  pub min : ℤ
  pub max : ℤ
  pub min_len : ℤ
  pub max_len : ℤ
  -- nil, or the allowed values
  pub allowed : Option (List (Value F))

pub data Complaint : Type 0 where
  is_required wrong_type cannot_be_empty too_short too_long over_limit no_match : Complaint
  not_an_integer below_min above_max below_limit above_limit : Complaint
  bad_email bad_url unparseable_url bad_ip bad_ipv6 bad_hostname bad_apikey not_allowed : Complaint

pub data Check : Type 0 where
  pass : Check
  fail : Complaint → Check
  panic : Check

-- A check, and the next one if it passes.
infixl 5 ◌andthen◌
abbrev pub ◌andthen◌ : Check → Check → Check
pass andthen k = k
(fail c) andthen k = fail c
panic andthen k = panic

abbrev pub refuse_if : Bool → Complaint → Check
refuse_if b c = if b then fail c else pass

pub record External : Type 0 where
  pub email_pattern : Text → Bool
  pub hostname_pattern : Text → Bool
  pub compile : Text → Option (Text → Bool)
  pub parses_as_url : Text → Bool
  -- net.ParseIP: none, or whether the address has a 4-byte form
  pub parse_ip : Text → Option Bool
