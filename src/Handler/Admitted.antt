-- ===== src/Handler/Admitted.antt =====
-- Which requests the guards of internal/handler/llm.go let through, and with which key.
use mathlib.Core.Path.{subst}
use gateway_a.Prelude.{
  ◌∷◌, ◌≤◌, length, Text, text_eq, codes, trim_prefix, Option, none, some, [], Error, Result, ok,
  err, ◌≡◌, ◌≢◌, ◌↔◌, ◌⊎◌, ℕ, ◌*◌, ℤ, pos, to_int64, refl, sym, arith,
}
use gateway_a.Usage.Quota.{Fits, check_quota_iff}
use gateway_a.Handler.Tenants.{Tenant, tenant_by_id, get_tenant_by_api_key}
use gateway_a.Handler.Guards.{
  ChatRequest, Incoming, LlmHandler, Database, admitted, admit, quota_check, estimated_tokens,
  key_or_default, quota_of, after_tenant, after_decoding, after_quota, max_body_size,
}

after_quota_iff :
    (h : LlmHandler) (key sent : Text) (t tenant : Tenant) (r request : ChatRequest)
    (e : Option Error)
    → (after_quota h key t r e ≡ admitted sent tenant request)
      ↔ ((e ≡ none) × (key_or_default h key ≡ sent) × (t ≡ tenant) × (r ≡ request))
after_quota_iff h key sent t tenant r request none = ground arith
after_quota_iff h key sent t tenant r request (some e) = ground arith

after_decoding_iff :
    (h : LlmHandler) (db : Database) (key sent : Text) (t tenant : Tenant) (d : Result ChatRequest)
    (request : ChatRequest)
    → (after_decoding h db key t d ≡ admitted sent tenant request) ↔ (
        (d ≡ ok request)
        × (request.messages ≢ [])
        × (request.model ≢ [])
        × (quota_check db t.id (estimated_tokens request) ≡ none)
        × (key_or_default h key ≡ sent)
        × (t ≡ tenant))
after_decoding_iff h db key sent t tenant (err e) request = ground arith
after_decoding_iff h db key sent t tenant (ok r) request = ground (
  arith,
  text_eq.beq_iff r.messages [],
  text_eq.beq_iff r.model [],
  after_quota_iff h key sent t tenant r request (quota_check db t.id (estimated_tokens r)),
)

after_tenant_iff :
    (h : LlmHandler) (db : Database) (i : Incoming) (key sent : Text) (found : Result Tenant)
    (tenant : Tenant) (request : ChatRequest)
    → (after_tenant h db i key found ≡ admitted sent tenant request) ↔ (
        (found ≡ ok tenant)
        × (length i.body ≤ max_body_size)
        × (i.decoded ≡ ok request)
        × (request.messages ≢ [])
        × (request.model ≢ [])
        × (quota_check db tenant.id (estimated_tokens request) ≡ none)
        × (key_or_default h key ≡ sent))
after_tenant_iff h db i key sent (err e) tenant request = ground arith
after_tenant_iff h db i key sent (ok t) tenant request =
    ground (arith, after_decoding_iff h db key sent t tenant i.decoded request)

-- The guards of ChatCompletion by their own functions.
admit-quoted_iff :
    (hash : Text → Text) (h : LlmHandler) (db : Database) (i : Incoming) (sent : Text)
    (tenant : Tenant) (request : ChatRequest)
    → let key = trim_prefix i.authorization (codes "Bearer ") in
      (admit hash h (some db) i ≡ admitted sent tenant request) ↔ (
        (i.authorization ≢ [])
        × (get_tenant_by_api_key db.tables db.queries (hash key) ≡ ok tenant)
        × (length i.body ≤ 1048576)
        × (i.decoded ≡ ok request)
        × (request.messages ≢ [])
        × (request.model ≢ [])
        × (quota_check db tenant.id (estimated_tokens request) ≡ none)
        × (key_or_default h key ≡ sent))
unfolding admit
admit-quoted_iff hash h db i sent tenant request =
    let key = trim_prefix i.authorization (codes "Bearer ") in
    let found = get_tenant_by_api_key db.tables db.queries (hash key) in
    ground (
      arith,
      text_eq.beq_iff i.authorization [],
      after_tenant_iff h db i key sent found tenant request,
    )

-- The daily quota has room for these tokens: both queries of the check work, and with them the total of
-- the first row of the day, in 64 bits, is not above the quota of the tenant.
abbrev pub HasRoom : Database → ℕ → ℤ → Type 0
HasRoom db id tokens =
    (db.usage_error ≡ none)
    × (db.quota_error ≡ none)
    × (t : Tenant) × (tenant_by_id id db.tables.tenants ≡ ok t)
    × Fits id db.today db.usage_rows tokens t.quota_daily

-- The key that is sent to the provider: the one of the client, or that of the handler without one.
abbrev pub SendsKey : LlmHandler → Text → Text → Type 0
SendsKey h key sent = ((key ≢ []) × (sent ≡ key)) ⊎ ((key ≡ []) × (sent ≡ h.default_key))

-- The quota of the tenant, as checkQuota reads it.
quota_of-ok :
    (e : Option Error) (found : Result Tenant) (q : ℤ)
    → (quota_of e found ≡ ok q)
      ↔ ((e ≡ none) × ((t : Tenant) × (found ≡ ok t) × (t.quota_daily ≡ q)))
quota_of-ok none (ok t) q =
    (λ p. (refl, (t, refl, ground arith)), λ (_, (x, same, daily)). ground arith)
quota_of-ok none (err x) q = (λ h. cc, λ (_, (t, p, _)). cc)
quota_of-ok (some e) found q = (λ h. cc, λ (p, _). cc)

quota_check_iff :
    (db : Database) (id : ℕ) (tokens : ℤ) → (quota_check db id tokens ≡ none) ↔ HasRoom db id tokens
quota_check_iff db id tokens =
    let found = tenant_by_id id db.tables.tenants in
    let quota = quota_of db.quota_error found in
    let (there, back) = check_quota_iff id tokens db.today db.usage_rows db.usage_error quota in
    let read = quota_of-ok db.quota_error found in
    (
      λ h.
          let (usage, (q, p, fits)) = there h in
          let (tenants, (t, e, same)) = (read q).0 p in
          (usage, tenants, t, e, subst (Fits id db.today db.usage_rows tokens) (sym same) fits),
      λ (usage, tenants, t, e, fits).
          back (usage, (t.quota_daily, (read t.quota_daily).1 (tenants, (t, e, refl)), fits)),
    )

key_or_default_iff :
    (h : LlmHandler) (key sent : Text) → (key_or_default h key ≡ sent) ↔ SendsKey h key sent
key_or_default_iff h [] sent = ground arith
key_or_default_iff h (c ∷ key) sent = ground arith

-- With a database, the guards of ChatCompletion let a request through with a key, a tenant and a
-- decoded body exactly where the header Authorization is not empty, getTenantByAPIKey finds the tenant by
-- the hash of that header less its prefix "Bearer ", the body has at most 1048576 bytes and decodes to
-- that request, the raw messages and the model are not empty, both queries of the quota check work, the
-- total of the tenant's first row of the day (zero without one) and 200 tokens for each byte of the raw
-- messages, in 64 bits, are not above the daily quota, and the key is the one that the client sent, or
-- the handler's own where that is empty.
pub admit_iff :
    (hash : Text → Text) (h : LlmHandler) (db : Database) (i : Incoming) (sent : Text)
    (tenant : Tenant) (request : ChatRequest)
    → let key = trim_prefix i.authorization (codes "Bearer ") in
      (admit hash h (some db) i ≡ admitted sent tenant request) ↔ (
        (i.authorization ≢ [])
        × (get_tenant_by_api_key db.tables db.queries (hash key) ≡ ok tenant)
        × (length i.body ≤ 1048576)
        × (i.decoded ≡ ok request)
        × (request.messages ≢ [])
        × (request.model ≢ [])
        × HasRoom db tenant.id (to_int64 (pos (length request.messages * 200)))
        × SendsKey h key sent)
admit_iff hash h db i sent tenant request =
    let key = trim_prefix i.authorization (codes "Bearer ") in
    let (there, back) = admit-quoted_iff hash h db i sent tenant request in
    let room = quota_check_iff db tenant.id (estimated_tokens request) in
    let sends = key_or_default_iff h key sent in
    (
      λ e. let (a, t, b, d, m, o, q, k) = there e in (a, t, b, d, m, o, room.0 q, sends.0 k),
      λ (a, t, b, d, m, o, q, k). back (a, t, b, d, m, o, room.1 q, sends.1 k),
    )
