-- ===== src/Handler/Keys.antt =====
-- createAPIKey and generateAPIKey of internal/handler/helpers.go. `hash` is hashAPIKey; the random
-- numbers are what crypto/rand draws, below 62, or none where it fails.
use gateway_a.Prelude.{
  ℕ, zero, suc, ◌+◌, ◌%◌, ◌<◌, ◌≤◌, length, all, Text, text_eq, nat_eq, codes, true, false, ◌&&◌,
  Option, none, some, List, [], ◌∷◌, ◌++◌, Error, Result, ok, err, ◌≡◌, ◌≢◌, refl, sym, ap, ◌∙◌,
  arith, Bool-cases, inl, inr,
}
use gateway_a.Validation.Checks.{apikey_char, apikey_pattern}
use gateway_a.Handler.Tenants.{
  ApiKey, Tenant, Tables, Queries, active_key, tenant_by_id, queried, active_result, if_active,
  from_key, tenant_unless, get_tenant_by_api_key,
}

abbrev pub letters : Text
letters = codes "abcdefghijklmnopqrstuvwxyzABCDEFGHIJKLMNOPQRSTUVWXYZ0123456789"

-- letters[n]; an index out of range, which would panic, does not occur.
abbrev pub letter : Text → ℕ → ℕ
letter [] n = 0
letter (c ∷ cs) zero = c
letter (c ∷ cs) (suc n) = letter cs n

abbrev pub drawn : ℕ → Option ℕ → ℕ
drawn i (some n) = letter letters n
drawn i none = letter letters (i % 62)

-- The loop of randomString from the index i on.
random_from : (ℕ → Option ℕ) → ℕ → ℕ → Text
random_from draw zero i = []
random_from draw (suc left) i = drawn i (draw i) ∷ random_from draw left (i + 1)

unfoldable pub generate_api_key : (ℕ → Option ℕ) → Text
unfolding random_from
generate_api_key draw = codes "sk-" ++ random_from draw 32 0

abbrev pub new_key : ℕ → Text → ApiKey
new_key tenant hashed = record {
  tenant_id = tenant;
  key_hash = hashed;
  active = true;
  expires_at = none;
}

-- createAPIKey with a database: `error` is what Create returns for the row.
unfoldable pub create_api_key :
    (hash : Text → Text)
    → (ℕ → Option ℕ)
    → ℕ
    → (error : Option Error) → Tables
    → Result (Text × Tables)
create_api_key hash draw tenant (some e) tables = err e
create_api_key hash draw tenant none tables =
    let key = generate_api_key draw in
    ok (key, record tables { keys = tables.keys ++ new_key tenant (hash key) ∷ [] })

active_key-tail :
    (hashed : Text) (j : ApiKey) (keys : List ApiKey)
    → active_key hashed (j ∷ keys) ≡ none
    → active_key hashed keys ≡ none
unfolding active_key
active_key-tail hashed j keys h = ground (arith, h)

active_key-append :
    (hashed : Text) (keys : List ApiKey) (k : ApiKey)
    → active_key hashed keys ≡ none
    → k.key_hash ≡ hashed
    → k.active ≡ true
    → active_key hashed (keys ++ k ∷ []) ≡ some k
unfolding active_key
active_key-append hashed [] k h e a = ground (arith, e, a, text_eq.beq_iff k.key_hash hashed)
active_key-append hashed (j ∷ keys) k h e a =
    ground (arith, h, active_key-append hashed keys k (active_key-tail hashed j keys h) e a)

active_key-other :
    (hashed : Text) (keys : List ApiKey) (k : ApiKey)
    → k.key_hash ≢ hashed
    → active_key hashed (keys ++ k ∷ []) ≡ active_key hashed keys
unfolding active_key
active_key-other hashed [] k h = ground (arith, h, text_eq.beq_iff k.key_hash hashed)
active_key-other hashed (j ∷ keys) k h = ground (arith, active_key-other hashed keys k h)

from_key-keys :
    (tables : Tables) (keys : List ApiKey) (q : Queries) (hashed : Text) (found : Option ApiKey)
    → from_key (record tables { keys = keys }) q hashed found ≡ from_key tables q hashed found
from_key-keys tables keys q hashed (some k) = refl
from_key-keys tables keys q hashed none = refl

if_active-active : (t : Tenant) → t.active ≡ true → if_active t ≡ ok t
if_active-active t h = rw h refl

-- A key that is created is the key of its tenant: where the database works, the tenant exists and is
-- active, and no active key had the same hash, the returned key is found with that tenant, and every
-- key of another hash is found as before.
pub create_api_key-get_tenant_by_api_key :
    (hash : Text → Text) (draw : ℕ → Option ℕ) (tables : Tables) (q : Queries) (t : Tenant)
    (other : Text)
    → q.key_error ≡ none
    → q.tenant_error ≡ none
    → tenant_by_id t.id tables.tenants ≡ ok t
    → t.active ≡ true
    → active_key (hash (generate_api_key draw)) tables.keys ≡ none
    → hash (generate_api_key draw) ≢ other
    → (key : Text) × (tables' : Tables) × (create_api_key hash draw t.id none tables
        ≡ ok (key, tables'))
      × (get_tenant_by_api_key tables' q (hash key) ≡ ok t)
      × (get_tenant_by_api_key tables' q other ≡ get_tenant_by_api_key tables q other)
unfolding create_api_key get_tenant_by_api_key
create_api_key-get_tenant_by_api_key hash draw tables q t other no_error no_tenant_error found
      active unused distinct =
    let key = generate_api_key draw in
    let row = new_key t.id (hash key) in
    let tables' : Tables = record tables { keys = tables.keys ++ row ∷ [] } in
    (
      key,
      tables',
      refl,
      ap (λ o. from_key tables' q (hash key) (queried o (active_key (hash key) tables'.keys)))
            no_error
          ∙ ap (from_key tables' q (hash key))
              (active_key-append (hash key) tables.keys row unused refl refl)
          ∙ ap (λ o. tenant_unless o (tenant_by_id t.id tables.tenants)) no_tenant_error
          ∙ ap active_result found
          ∙ if_active-active t active,
      ap (λ o. from_key tables' q other (queried q.key_error o))
            (active_key-other other tables.keys row distinct)
          ∙ from_key-keys tables tables'.keys q other
              (queried q.key_error (active_key other tables.keys)),
    )

false-true : false ≡ true → ⊥
false-true h = ground (arith, h)

all-cons :
    (c : ℕ) (cs : Text)
    → all apikey_char (c ∷ cs) ≡ true
    → (apikey_char c ≡ true) × (all apikey_char cs ≡ true)
all-cons c cs h = elim (Bool-cases (apikey_char c)) [
  | inl yes_char ↦ (yes_char, sym (ap (λ b. b && all apikey_char cs) yes_char) ∙ h)
  | inr no_char ↦ absurd (false-true (sym (ap (λ b. b && all apikey_char cs) no_char) ∙ h))
]

-- The bytes of a generated key are those of an API key.
letter-apikey_char :
    (cs : Text) (n : ℕ)
    → all apikey_char cs ≡ true
    → n < length cs
    → apikey_char (letter cs n) ≡ true
letter-apikey_char [] n h b = absurd (omega arith)
letter-apikey_char (c ∷ cs) zero h b = (all-cons c cs h).0
letter-apikey_char (c ∷ cs) (suc n) h b = letter-apikey_char cs n (all-cons c cs h).1 (omega arith)

-- A number that crypto/rand draws is below the bound that it is given.
abbrev pub InRange : Option ℕ → Type 0
InRange none = Unit
InRange (some n) = n < 62

letters-apikey_char : all apikey_char letters ≡ true
letters-apikey_char = refl

drawn-apikey_char : (i : ℕ) (o : Option ℕ) → InRange o → apikey_char (drawn i o) ≡ true
drawn-apikey_char i none h = letter-apikey_char letters (i % 62) letters-apikey_char (omega arith)
drawn-apikey_char i (some n) h = letter-apikey_char letters n letters-apikey_char h

random_from-apikey_char :
    (draw : ℕ → Option ℕ) (left i : ℕ)
    → ((j : ℕ) → InRange (draw j))
    → (all apikey_char (random_from draw left i) ≡ true) × (length (random_from draw left i) ≡ left)
unfolding random_from
random_from-apikey_char draw zero i h = (refl, refl)
random_from-apikey_char draw (suc left) i h =
    let (chars, size) = random_from-apikey_char draw left (i + 1) h in
    (
      ap (λ b. b && all apikey_char (random_from draw left (i + 1)))
            (drawn-apikey_char i (draw i) (h i))
          ∙ chars,
      ap suc size,
    )

prefixed-apikey_pattern :
    (rest : Text)
    → all apikey_char rest ≡ true
    → 17 ≤ length rest
    → apikey_pattern (codes "sk-" ++ rest) ≡ true
unfolding apikey_pattern
prefixed-apikey_pattern rest chars size = ground (arith, chars, size)

-- Every key that is generated passes the check of the type apikey of middleware/validation.
pub generate_api_key-apikey_pattern :
    (draw : ℕ → Option ℕ)
    → ((j : ℕ) → InRange (draw j))
    → apikey_pattern (generate_api_key draw) ≡ true
unfolding generate_api_key
generate_api_key-apikey_pattern draw h =
    let (chars, size) = random_from-apikey_char draw 32 0 h in
    prefixed-apikey_pattern (random_from draw 32 0) chars (omega (arith, size))
