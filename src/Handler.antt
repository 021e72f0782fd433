-- ===== src/Handler.antt =====
-- internal/handler/llm.go: the handler of chat completions, from its guards in Handler/Guards to the
-- answer, over the client of LlmClient. The background goroutine that records the usage is an effect of the answer.
pub mod Tenants
pub mod Guards
pub mod Admitted
pub mod Laws
pub mod Owners
pub mod Keys
pub mod Stream
pub mod Whole
pub mod Metering
mod Tests
use gateway_a.Prelude.{
  ℕ, suc, zero, ◌+◌, ◌*◌, ◌^◌, ltb, ℤ, pos, ◌+ℤ◌, ◌-ℤ◌, ltb_ℤ, leb_ℤ, to_int64, itoa, length, Text,
  text_eq, codes, trim_prefix, Bool, true, false, not, ◌&&◌, Option, none, some, List, [], ◌∷◌,
  ◌++◌, if◌then◌else◌, ◌==◌, Float64, Error, error_text, Result, ok, err,
}
use gateway_a.Http.{Action, header, json, text}
use gateway_a.CircuitBreaker.{CircuitBreaker, Env}
use gateway_a.LlmClient.{Upstream, Event, chat_completion, error_response, retries_of}
use gateway_a.Usage.{Usage, UsageTrack, check_quota, first_of_day}
use gateway_a.Handler.Tenants.{Tenant, Tables, Queries, get_tenant_by_api_key, tenant_by_id}
use gateway_a.Handler.Guards.{
  Admission, ChatRequest, Database, Incoming, LlmHandler, admit, admitted, refused,
}

-- getQuotaStatus with a database: used, remaining and limit, on the rows that it sees.
abbrev total_used : Option UsageTrack → ℤ
total_used none = pos 0
total_used (some r) = r.total_tokens

abbrev at_least_zero : ℤ → ℤ
at_least_zero z = if ltb_ℤ z (pos 0) then pos 0 else z

abbrev quota_numbers : ℤ → ℤ → ℤ × (ℤ × ℤ)
quota_numbers used limit = (used, (at_least_zero (to_int64 (limit -ℤ used)), limit))

unfoldable pub get_quota_status : ℕ → Text → Result ℤ → List UsageTrack → ℤ × (ℤ × ℤ)
unfolding first_of_day
get_quota_status tenant today (err e) rows = (pos 0, (pos 0, pos 0))
get_quota_status tenant today (ok limit) rows =
    quota_numbers (total_used (first_of_day tenant today rows)) limit

-- What a request is answered, and the usage that a goroutine is started to record.
pub record Answer (R : Type 0) : Type 0 where
  pub actions : List Action
  -- ctx.JSON(200, resp), of a pointer that may be nil
  pub response : Option (Option R)
  pub recorded : Option (ℕ × (Text × Usage))

abbrev quota_headers : ℤ × (ℤ × ℤ) → List Action
quota_headers (used, (remaining, limit)) =
    header "X-Quota-Limit" (itoa limit)
    ∷ header "X-Quota-Used" (itoa used)
    ∷ header "X-Quota-Remaining" (itoa remaining)
    ∷ []

-- recordUsage with a database: nothing is recorded for a usage of no tokens.
abbrev pub record_usage : ℕ → Text → Usage → Option (ℕ × (Text × Usage))
record_usage tenant model u =
    if leb_ℤ u.total_tokens (pos 0) && leb_ℤ (pos 0) u.total_tokens
    then none
    else some (tenant, (model, u))

module _ {R : Type 0} (usage_of : R → Usage) where
  -- The answer of nonStreamChatCompletion to what the client returns; `status` is what
  -- getQuotaStatus finds, before or after the usage is recorded.
  abbrev pub answer_to_client : ℕ → Text → ℤ × (ℤ × ℤ) → Result (Option R) → Answer R
  answer_to_client tenant model status (err e) = record {
    actions = error_response e ∷ [];
    response = none;
    recorded = none;
  }
  answer_to_client tenant model status (ok none) = record {
    actions = [];
    response = some none;
    recorded = none;
  }
  answer_to_client tenant model status (ok (some r)) = record {
    actions = quota_headers status;
    response = some (some r);
    recorded = record_usage tenant model (usage_of r);
  }

  module _ {F : Type 0} ⦃fl : Float64 F⦄ where
    abbrev answered :
        ℕ
        → Text
        → ℤ × (ℤ × ℤ)
        → CircuitBreaker F × Result (Option R) × List Event
        → CircuitBreaker F × (Answer R × List Event)
    answered tenant model status (cb, result, events) =
        (cb, (answer_to_client tenant model status result, events))

    abbrev pub non_stream :
        LlmHandler
        → Tenant
        → ChatRequest
        → ℤ × (ℤ × ℤ)
        → Env
        → Upstream R
        → CircuitBreaker F
        → CircuitBreaker F × (Answer R × List Event)
    non_stream h tenant r status env u cb =
        answered tenant.id r.model status (chat_completion (retries_of h.max_retries) env u cb)

    -- What follows the guards.
    abbrev pub served :
        LlmHandler
        → ℤ × (ℤ × ℤ)
        → Env
        → (Text → ChatRequest → Upstream R)
        → CircuitBreaker F
        → Admission
        → CircuitBreaker F × (Answer R × List Event)
    served h status env upstream_of cb (refused a) =
        (cb, (record { actions = a ∷ []; response = none; recorded = none }, []))
    served h status env upstream_of cb (admitted key tenant r) =
        non_stream h tenant r status env (upstream_of key r) cb

    -- ChatCompletion of a request that does not ask for a stream: `upstream_of` is what the provider
    -- does with the key and the request that it is sent.
    unfoldable pub serve :
        (hash : Text → Text)
        → LlmHandler
        → Option Database
        → Incoming
        → ℤ × (ℤ × ℤ)
        → Env
        → (Text → ChatRequest → Upstream R)
        → CircuitBreaker F
        → CircuitBreaker F × (Answer R × List Event)
    unfolding admit chat_completion
    serve hash h db i status env upstream_of cb =
        served h status env upstream_of cb (admit hash h db i)
