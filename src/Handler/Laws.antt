-- ===== src/Handler/Laws.antt =====
-- What the handler of internal/handler/llm.go does with a request that does not ask for a stream.
use gateway_a.Prelude.{
  ℕ, ltb, ℤ, pos, length, Text, text_eq, Option, none, some, [], ◌∷◌, ◌==◌, Error, Result, ok, err,
  error_text, ◌≡◌, ◌≢◌, ◌⊎◌, inl, inr, refl, ap, ◌∙◌, arith, Float64, if-both,
}
use mathlib.Core.Path.{subst}
use gateway_a.Http.{Action, json, text}
use gateway_a.CircuitBreaker.{CircuitBreaker, Env}
use gateway_a.LlmClient.{Upstream}
use gateway_a.Usage.{Usage}
use gateway_a.Handler.Tenants.{Tenant}
use gateway_a.Handler.{serve, Answer, served, record_usage, answer_to_client}
use gateway_a.Handler.Guards.{
  ChatRequest, Incoming, LlmHandler, Database, Admission, refused, admitted, admit, after_tenant,
  after_decoding, after_quota, max_body_size,
}

-- A refusal is an error with one of the statuses of the guards.
abbrev pub RefusalStatus : ℕ → Type 0
RefusalStatus s = (s ≡ 400) ⊎ ((s ≡ 401) ⊎ ((s ≡ 403) ⊎ (s ≡ 413)))

abbrev Refusal : Action → Type 0
Refusal a = (s : ℕ) × (m : Text) × (a ≡ json s (("error", text m) ∷ [])) × RefusalStatus s

abbrev Refuses : Admission → Type 0
Refuses (refused a) = Refusal a
Refuses (admitted key tenant r) = Unit

after_quota-Refuses :
    (h : LlmHandler) (key : Text) (t : Tenant) (r : ChatRequest) (e : Option Error)
    → Refuses (after_quota h key t r e)
after_quota-Refuses h key t r none = tt
after_quota-Refuses h key t r (some e) = (403, error_text e, refl, inr (inr (inl refl)))

after_decoding-Refuses :
    (h : LlmHandler) (db : Database) (key : Text) (t : Tenant) (d : Result ChatRequest)
    → Refuses (after_decoding h db key t d)
after_decoding-Refuses h db key t (err e) = (400, _, refl, inl refl)
after_decoding-Refuses h db key t (ok r) =
    if-both Refuses (r.messages == []) _ _ (400, _, refl, inl refl)
      (if-both Refuses (r.model == []) _ _ (400, _, refl, inl refl)
        (after_quota-Refuses h key t r _))

after_tenant-Refuses :
    (h : LlmHandler) (db : Database) (i : Incoming) (key : Text) (found : Result Tenant)
    → Refuses (after_tenant h db i key found)
after_tenant-Refuses h db i key (err e) = (401, _, refl, inr (inl refl))
after_tenant-Refuses h db i key (ok t) =
    if-both Refuses (ltb max_body_size (length i.body)) _ _ (413, _, refl, inr (inr (inr refl)))
      (after_decoding-Refuses h db key t i.decoded)

admit-Refuses :
    (hash : Text → Text) (h : LlmHandler) (db : Option Database) (i : Incoming)
    → Refuses (admit hash h db i)
unfolding admit
admit-Refuses hash h none i =
    if-both Refuses (i.authorization == []) _ _ (400, _, refl, inl refl)
      (401, _, refl, inr (inl refl))
admit-Refuses hash h (some db) i =
    if-both Refuses (i.authorization == []) _ _ (400, _, refl, inl refl)
      (after_tenant-Refuses h db i _ _)

abbrev pub refused_answer : {R : Type 0} → Action → Answer R
refused_answer a = record { actions = a ∷ []; response = none; recorded = none }

-- What a usage is recorded for.
record Recorded {R : Type 0} (usage_of : R → Usage) (tenant : ℕ) (model : Text) (u : Usage)
    (answer : Answer R) (t : ℕ) (m : Text) : Type 0 where
  result : R
  answered : answer.response ≡ some (some result)
  used : usage_of result ≡ u
  counted : u.total_tokens ≢ pos 0
  same_tenant : t ≡ tenant
  same_model : m ≡ model

record_usage-some :
    (t tenant : ℕ) (m model : Text) (v u : Usage)
    → record_usage t m v ≡ some (tenant, (model, u))
    → (v ≡ u) × (u.total_tokens ≢ pos 0) × (t ≡ tenant) × (m ≡ model)
record_usage-some t tenant m model v u e = ground arith

answer-Recorded :
    {R : Type 0} (usage_of : R → Usage) (tenant t : ℕ) (model m : Text) (u : Usage)
    (status : ℤ × (ℤ × ℤ)) (result : Result (Option R))
    → (answer_to_client usage_of t m status result).recorded ≡ some (tenant, (model, u))
    → Recorded usage_of tenant model u (answer_to_client usage_of t m status result) t m
answer-Recorded usage_of tenant t model m u status (err e) h = ground (arith, h)
answer-Recorded usage_of tenant t model m u status (ok none) h = ground (arith, h)
answer-Recorded usage_of tenant t model m u status (ok (some r)) h =
    let (used, counted, same_tenant, same_model) =
      record_usage-some t tenant m model (usage_of r) u h in
    record {
      result = r;
      answered = refl;
      used = used;
      counted = counted;
      same_tenant = same_tenant;
      same_model = same_model;
    }

module _ {R : Type 0} (usage_of : R → Usage) {F : Type 0} ⦃fl : Float64 F⦄ where
  -- A refusal of the guards is one JSON error of status 400, 401, 403 or 413, and the whole answer.
  pub serve-refused :
      (hash : Text → Text) (h : LlmHandler) (db : Option Database) (i : Incoming)
      (status : ℤ × (ℤ × ℤ)) (env : Env) (upstream_of : Text → ChatRequest → Upstream R)
      (cb : CircuitBreaker F) (a : Action)
      → admit hash h db i ≡ refused a
      → (s : ℕ) × (m : Text) × (serve usage_of hash h db i status env upstream_of cb
          ≡ (cb, (refused_answer (json s (("error", text m) ∷ [])), [])))
        × RefusalStatus s
  unfolding serve
  serve-refused hash h db i status env upstream_of cb a e =
      let (s, m, same, which) = subst Refuses e (admit-Refuses hash h db i) in
      (
        s,
        m,
        ap (served usage_of h status env upstream_of cb) e
            ∙ ap (λ x. (cb, (refused_answer x, []))) same,
        which,
      )

  served-recorded :
      (h : LlmHandler) (status : ℤ × (ℤ × ℤ)) (env : Env)
      (upstream_of : Text → ChatRequest → Upstream R) (cb : CircuitBreaker F) (x : Admission)
      (tenant_id : ℕ) (model : Text) (u : Usage)
      → (served usage_of h status env upstream_of cb x).1.0.recorded ≡ some (tenant_id, (model, u))
      → (key : Text) × (tenant : Tenant) × (request : ChatRequest) × (x
          ≡ admitted key tenant request)
        × Recorded usage_of tenant_id model u
            (served usage_of h status env upstream_of cb x).1.0
            tenant.id
            request.model
  served-recorded h status env upstream_of cb (refused a) tenant_id model u e = ground (arith, e)
  served-recorded h status env upstream_of cb (admitted key tenant r) tenant_id model u e = (
    key,
    tenant,
    r,
    refl,
    answer-Recorded usage_of tenant_id tenant.id model r.model u status _ e,
  )

  -- A usage is recorded only for a request that the guards let through: under its tenant and its model,
  -- and it is the usage, of a number of tokens that is not zero, of the response that is answered.
  pub serve-recorded :
      (hash : Text → Text) (h : LlmHandler) (db : Option Database) (i : Incoming)
      (status : ℤ × (ℤ × ℤ)) (env : Env) (upstream_of : Text → ChatRequest → Upstream R)
      (cb : CircuitBreaker F) (tenant_id : ℕ) (model : Text) (u : Usage)
      → let answer = (serve usage_of hash h db i status env upstream_of cb).1.0 in
        answer.recorded ≡ some (tenant_id, (model, u))
        → (key : Text) × (tenant : Tenant) × (request : ChatRequest) × (r : R) × (admit hash h db i
            ≡ admitted key tenant request)
          × (answer.response ≡ some (some r))
          × (usage_of r ≡ u)
          × (u.total_tokens ≢ pos 0)
          × (tenant.id ≡ tenant_id)
          × (request.model ≡ model)
  unfolding serve
  serve-recorded hash h db i status env upstream_of cb tenant_id model u e =
      let (key, tenant, request, admission, d) =
        served-recorded h status env upstream_of cb (admit hash h db i) tenant_id model u e in
      (
        key, tenant, request, d.result, admission, d.answered, d.used, d.counted, d.same_tenant,
        d.same_model,
      )
