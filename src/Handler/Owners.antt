-- ===== src/Handler/Owners.antt =====
-- Whose keys getTenantByAPIKey of internal/handler/helpers.go accepts.
use gateway_a.Prelude.{
  ℕ, ℤ, Text, text_eq, nat_eq, true, ◌&&◌, Option, none, some, List, [], ◌∷◌, ◌==◌, Error, Result,
  ok, err, ◌≡◌, refl, ap, sym, ◌∙◌, ◌⊎◌, inl, inr, arith, Bool-cases,
}
use mathlib.Core.Path.{subst}
use gateway_a.Handler.Tenants.{
  ApiKey, Tenant, Tables, Queries, active_key, tenant_by_id, tenant_by_key, get_tenant_by_api_key,
  if_active, active_result, queried, legacy_result, tenant_unless, from_key,
}

-- An active row of the table of keys with this hash.
abbrev pub IsKeyOf : Text → List ApiKey → ℕ → Type 0
IsKeyOf hashed [] id = ⊥
IsKeyOf hashed (k ∷ keys) id =
    ((k.key_hash ≡ hashed) × (k.active ≡ true) × (k.tenant_id ≡ id)) ⊎ IsKeyOf hashed keys id

active_key-IsKeyOf :
    (hashed : Text) (keys : List ApiKey) (k : ApiKey)
    → active_key hashed keys ≡ some k
    → IsKeyOf hashed keys k.tenant_id
unfolding active_key
active_key-IsKeyOf hashed [] k e = ground (arith, e)
active_key-IsKeyOf hashed (x ∷ keys) k e = elim (Bool-cases ((x.key_hash == hashed) && x.active)) [
  | inl same ↦ inl (ground (arith, text_eq.beq_iff x.key_hash hashed), ground arith, ground arith)
  | inr other ↦ inr (active_key-IsKeyOf hashed keys k (ground arith))
]

tenant_by_id-id :
    (id : ℕ) (tenants : List Tenant) (t : Tenant) → tenant_by_id id tenants ≡ ok t → t.id ≡ id
unfolding tenant_by_id
tenant_by_id-id id [] t e = ground (arith, e)
tenant_by_id-id id (x ∷ tenants) t e =
    ground (arith, nat_eq.beq_iff x.id id, tenant_by_id-id id tenants t)

tenant_by_key-api_key :
    (hashed : Text) (tenants : List Tenant) (t : Tenant)
    → tenant_by_key hashed tenants ≡ some t
    → t.api_key ≡ hashed
unfolding tenant_by_key
tenant_by_key-api_key hashed [] t e = ground (arith, e)
tenant_by_key-api_key hashed (x ∷ tenants) t e =
    ground (arith, text_eq.beq_iff x.api_key hashed, tenant_by_key-api_key hashed tenants t)

if_active-ok : (x t : Tenant) → if_active x ≡ ok t → (x ≡ t) × (t.active ≡ true)
if_active-ok x t e = ground arith

active_result-ok :
    (r : Result Tenant) (t : Tenant) → active_result r ≡ ok t → (r ≡ ok t) × (t.active ≡ true)
active_result-ok (err x) t e = ground (arith, e)
active_result-ok (ok x) t e = let (same, active) = if_active-ok x t e in (ap ok same, active)

queried-some :
    {A : Type 0} (e : Option Error) (found : Option A) (a : A)
    → queried e found ≡ some a
    → found ≡ some a
queried-some none found a h = h
queried-some (some e) found a h = ground (arith, h)

tenant_unless-ok :
    (e : Option Error) (r : Result Tenant) (t : Tenant)
    → tenant_unless e r ≡ ok t
    → (r ≡ ok t) × (t.active ≡ true)
tenant_unless-ok none r t h = active_result-ok r t h
tenant_unless-ok (some e) r t h = ground (arith, h)

legacy_result-ok :
    (o : Option Tenant) (t : Tenant) → legacy_result o ≡ ok t → (o ≡ some t) × (t.active ≡ true)
legacy_result-ok none t h = ground (arith, h)
legacy_result-ok (some x) t h = let (same, active) = if_active-ok x t h in (ap some same, active)

from_key-ok :
    (tables : Tables) (q : Queries) (hashed : Text) (o : Option ApiKey) (t : Tenant)
    → ((k : ApiKey) → o ≡ some k → IsKeyOf hashed tables.keys k.tenant_id)
    → from_key tables q hashed o ≡ ok t
    → (t.active ≡ true) × (IsKeyOf hashed tables.keys t.id ⊎ (t.api_key ≡ hashed))
from_key-ok tables q hashed none t owns h =
    let (found, active) = legacy_result-ok _ t h in
    (
      active,
      inr (tenant_by_key-api_key hashed tables.tenants t (queried-some q.legacy_error _ t found)),
    )
from_key-ok tables q hashed (some k) t owns h =
    let (found, active) = tenant_unless-ok q.tenant_error _ t h in
    let same = tenant_by_id-id k.tenant_id tables.tenants t found in
    (active, inl (subst (IsKeyOf hashed tables.keys) (sym same) (owns k refl)))

-- A tenant that is found for the hash of a key is active, and either an active row of the table of
-- keys has that hash and names that tenant, or the tenant itself holds the hash.
pub get_tenant_by_api_key-IsKeyOf :
    (tables : Tables) (q : Queries) (hashed : Text) (t : Tenant)
    → get_tenant_by_api_key tables q hashed ≡ ok t
    → (t.active ≡ true) × (IsKeyOf hashed tables.keys t.id ⊎ (t.api_key ≡ hashed))
unfolding get_tenant_by_api_key
get_tenant_by_api_key-IsKeyOf tables q hashed t e =
    from_key-ok tables q hashed _ t
      (λ k h. active_key-IsKeyOf hashed tables.keys k (queried-some q.key_error _ k h)) e

-- A row, and rows, of the keys with another expiry.
abbrev expiring_row : Option ℤ → ApiKey → ApiKey
expiring_row at k = record k { expires_at = at }

abbrev pub expiring : Option ℤ → List ApiKey → List ApiKey
expiring at [] = []
expiring at (k ∷ keys) = expiring_row at k ∷ expiring at keys

abbrev expiring_result : Option ℤ → Option ApiKey → Option ApiKey
expiring_result at none = none
expiring_result at (some k) = some (expiring_row at k)

active_key-expiring :
    (hashed : Text) (at : Option ℤ) (keys : List ApiKey)
    → active_key hashed (expiring at keys) ≡ expiring_result at (active_key hashed keys)
unfolding active_key
active_key-expiring hashed at [] = refl
active_key-expiring hashed at (k ∷ keys) = ground (arith, active_key-expiring hashed at keys)

from_key-expiring :
    (tables : Tables) (q : Queries) (hashed : Text) (at : Option ℤ) (keys : List ApiKey)
    (e : Option Error) (o : Option ApiKey)
    → from_key (record tables { keys = keys }) q hashed (queried e (expiring_result at o))
      ≡ from_key tables q hashed (queried e o)
from_key-expiring tables q hashed at keys (some e) o = refl
from_key-expiring tables q hashed at keys none none = refl
from_key-expiring tables q hashed at keys none (some k) = refl

-- The time at which a key expires is not looked at: with any other time on all keys the result is
-- the same.
pub get_tenant_by_api_key-expiring :
    (tables : Tables) (q : Queries) (hashed : Text) (at : Option ℤ)
    → get_tenant_by_api_key (record tables { keys = expiring at tables.keys }) q hashed
      ≡ get_tenant_by_api_key tables q hashed
unfolding get_tenant_by_api_key
get_tenant_by_api_key-expiring tables q hashed at =
    ap
      (λ o.
        from_key (record tables { keys = expiring at tables.keys }) q hashed
          (queried q.key_error o))
      (active_key-expiring hashed at tables.keys)
    ∙ from_key-expiring tables q hashed at (expiring at tables.keys) q.key_error
        (active_key hashed tables.keys)
