-- ===== src/Handler/Guards.antt =====
-- internal/handler/llm.go: the guards of ChatCompletion, over the tenants of Handler/Tenants and the
-- quota of Usage. The JSON package gives the decoded request.
use gateway_a.Prelude.{
  ℕ, ◌*◌, ltb, ℤ, pos, leb_ℤ, to_int64, length, Text, text_eq, codes, trim_prefix, Bool, Option,
  none, some, List, [], ◌∷◌, if◌then◌else◌, ◌==◌, Error, error_text, Result, ok, err,
}
use gateway_a.Http.{Action, json, text}
use gateway_a.Usage.{UsageTrack, check_quota}
use gateway_a.Handler.Tenants.{Tenant, Tables, Queries, get_tenant_by_api_key, tenant_by_id}

-- The struct that the body is decoded into; `messages` is the raw JSON.
pub record ChatRequest : Type 0 where
  pub model : Text
  pub messages : Text
  pub stream : Bool
  pub max_tokens : ℤ

pub record Incoming : Type 0 where
  pub authorization : Text
  pub body : Text
  pub decoded : Result ChatRequest

-- The settings of the handler, as NewLLMHandler leaves them.
pub record LlmHandler : Type 0 where
  pub upstream_url : Text
  pub default_key : Text
  pub max_retries : ℤ
  -- in nanoseconds
  pub request_timeout : ℤ

abbrev or_url : Text → Text
or_url [] = codes "https://api.openai.com/v1"
or_url (c ∷ url) = c ∷ url

abbrev positive_or : ℤ → ℤ → ℤ
positive_or default z = if leb_ℤ z (pos 0) then default else z

-- NewLLMHandler.
abbrev pub new_llm_handler : Text → Text → ℤ → ℤ → LlmHandler
new_llm_handler url default_key max_retries timeout = record {
  upstream_url = or_url url;
  default_key = default_key;
  max_retries = positive_or (pos 2) max_retries;
  request_timeout = positive_or (pos 120000000000) timeout;
}

-- The database as the handler finds it: `none` where it is not initialized.
pub record Database : Type 0 where
  pub tables : Tables
  pub queries : Queries
  pub today : Text
  pub usage_rows : List UsageTrack
  -- the errors of the two queries of checkQuota
  pub usage_error : Option Error
  pub quota_error : Option Error

abbrev refuse : ℕ → Text → Action
refuse status message = json status (("error", text message) ∷ [])

-- What the guards of ChatCompletion decide.
pub data Admission : Type 0 where
  refused : Action → Admission
  admitted : (key : Text) → Tenant → ChatRequest → Admission

abbrev pub max_body_size : ℕ
max_body_size = 1048576

abbrev pub quota_of : Option Error → Result Tenant → Result ℤ
quota_of (some e) found = err e
quota_of none (ok t) = ok t.quota_daily
quota_of none (err e) = err e

-- The estimate that checkQuota is given: 200 tokens for each byte of the raw messages.
abbrev pub estimated_tokens : ChatRequest → ℤ
estimated_tokens r = to_int64 (pos (length r.messages * 200))

-- checkQuota on the database of the handler.
abbrev pub quota_check : Database → ℕ → ℤ → Option Error
quota_check db tenant tokens =
    check_quota tenant tokens db.today db.usage_rows db.usage_error
      (quota_of db.quota_error (tenant_by_id tenant db.tables.tenants))

abbrev pub key_or_default : LlmHandler → Text → Text
key_or_default h [] = h.default_key
key_or_default h (c ∷ key) = c ∷ key

-- From the quota check on.
abbrev pub after_quota : LlmHandler → Text → Tenant → ChatRequest → Option Error → Admission
after_quota h key tenant r (some e) = refused (refuse 403 (error_text e))
after_quota h key tenant r none = admitted (key_or_default h key) tenant r

-- From the decoded body on.
abbrev pub after_decoding : LlmHandler → Database → Text → Tenant → Result ChatRequest → Admission
after_decoding h db key tenant (err e) = refused (refuse 400 (codes "Invalid request format"))
after_decoding h db key tenant (ok r) =
    if r.messages == []
    then refused (refuse 400 (codes "messages cannot be empty"))
    else if r.model == []
    then refused (refuse 400 (codes "model is required"))
    else after_quota h key tenant r (quota_check db tenant.id (estimated_tokens r))

-- From the tenant on.
abbrev pub after_tenant : LlmHandler → Database → Incoming → Text → Result Tenant → Admission
after_tenant h db i key (err e) = refused (refuse 401 (codes "Invalid API key"))
after_tenant h db i key (ok tenant) =
    if ltb max_body_size (length i.body)
    then refused (refuse 413 (codes "request body too large"))
    else after_decoding h db key tenant i.decoded

-- ChatCompletion up to the call of its streaming or its other half; `hash` is hashAPIKey.
unfoldable pub admit : (hash : Text → Text) → LlmHandler → Option Database → Incoming → Admission
unfolding get_tenant_by_api_key tenant_by_id check_quota trim_prefix
admit hash h none i =
    if i.authorization == []
    then refused (refuse 400 (codes "Missing API key"))
    else refused (refuse 401 (codes "Invalid API key"))
admit hash h (some db) i =
    let key = trim_prefix i.authorization (codes "Bearer ") in
    if i.authorization == []
    then refused (refuse 400 (codes "Missing API key"))
    else after_tenant h db i key (get_tenant_by_api_key db.tables db.queries (hash key))
