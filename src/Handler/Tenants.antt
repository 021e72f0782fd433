-- ===== src/Handler/Tenants.antt =====
-- internal/handler/helpers.go: the tenant of an API key. A table is the list of its rows in the order
-- of their primary keys, less the deleted ones; `First` takes the first matching row.
use gateway_a.Prelude.{
  ℕ, ℤ, Text, text_eq, nat_eq, codes, Bool, ◌&&◌, Option, none, some, List, [], ◌∷◌, if◌then◌else◌,
  ◌==◌, Error, message, Result, ok, err,
}

pub record ApiKey : Type 0 where
  pub tenant_id : ℕ
  pub key_hash : Text
  pub active : Bool
  pub expires_at : Option ℤ

pub record Tenant : Type 0 where
  pub id : ℕ
  pub api_key : Text
  pub active : Bool
  pub quota_daily : ℤ

pub record Tables : Type 0 where
  pub keys : List ApiKey
  pub tenants : List Tenant

-- The errors of the three queries, other than that there is no row.
pub record Queries : Type 0 where
  pub key_error : Option Error
  pub tenant_error : Option Error
  pub legacy_error : Option Error

abbrev pub record_not_found : Error
record_not_found = message (codes "record not found")

-- The query of a key.
unfoldable pub active_key : Text → List ApiKey → Option ApiKey
active_key hashed [] = none
active_key hashed (k ∷ keys) =
    let rest = active_key hashed keys in if (k.key_hash == hashed) && k.active then some k else rest

-- The query of a tenant by its primary key.
unfoldable pub tenant_by_id : ℕ → List Tenant → Result Tenant
tenant_by_id id [] = err record_not_found
tenant_by_id id (t ∷ tenants) =
    let rest = tenant_by_id id tenants in if t.id == id then ok t else rest

-- The query of a tenant by the key that it held itself.
unfoldable pub tenant_by_key : Text → List Tenant → Option Tenant
tenant_by_key hashed [] = none
tenant_by_key hashed (t ∷ tenants) =
    let rest = tenant_by_key hashed tenants in if t.api_key == hashed then some t else rest

abbrev pub if_active : Tenant → Result Tenant
if_active t = if t.active then ok t else err (message (codes "tenant account is disabled"))

abbrev pub active_result : Result Tenant → Result Tenant
active_result (err e) = err e
active_result (ok t) = if_active t

-- The result of a query whose error is told apart from an absent row.
abbrev pub queried : {A : Type 0} → Option Error → Option A → Option A
queried (some e) found = none
queried none found = found

abbrev pub legacy_result : Option Tenant → Result Tenant
legacy_result (some t) = if_active t
legacy_result none = err (message (codes "invalid api key"))

-- From the second query of a tenant on.
abbrev pub legacy_tenant : Tables → Queries → Text → Result Tenant
legacy_tenant tables q hashed =
    legacy_result (queried q.legacy_error (tenant_by_key hashed tables.tenants))

abbrev pub tenant_unless : Option Error → Result Tenant → Result Tenant
tenant_unless (some e) found = err e
tenant_unless none found = active_result found

-- What the query of a key leads to.
abbrev pub from_key : Tables → Queries → Text → Option ApiKey → Result Tenant
from_key tables q hashed (some k) =
    tenant_unless q.tenant_error (tenant_by_id k.tenant_id tables.tenants)
from_key tables q hashed none = legacy_tenant tables q hashed

-- getTenantByAPIKey with a database, on the hash of the key.
unfoldable pub get_tenant_by_api_key : Tables → Queries → Text → Result Tenant
unfolding active_key tenant_by_id tenant_by_key
get_tenant_by_api_key tables q hashed =
    from_key tables q hashed (queried q.key_error (active_key hashed tables.keys))
