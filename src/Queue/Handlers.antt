-- ===== src/Queue/Handlers.antt =====
-- pkg/queue/handler.go: the handlers of the four kinds of job, and what they count. What they only
-- log is left out.
use gateway_a.Prelude.{
  ℕ, ◌/◌, ℤ, pos, ◌+ℤ◌, Text, codes, Option, none, some, [], length, Error, wrapped, Result, ok,
  err,
}
use gateway_a.Queue.Client.{Redis}
use gateway_a.Queue.{Job, Codec, QueueConfig, Moment, enqueue}
use gateway_a.Queue.Worker.{JobHandler, Worker, register}

pub record TokenCalculation : Type 0 where
  pub model : Text
  pub prompt : Text
  pub response : Text

-- The values of type map[string]interface{}, and sonic's conversions of them; the payloads that are
-- only logged are not told apart.
pub record Payloads (P : Type 0) : Type 0 where
  pub nil : P
  pub usage : (model : Text) → (tokens : ℤ) → P
  pub marshal : P → Result Text
  pub read_token_calculation : Text → Result TokenCalculation
  pub read_usage_tracking : Text → Option Error
  pub read_llm_caching : Text → Option Error
  pub read_tenant_sync : Text → Option Error

-- countTokens
abbrev pub count_tokens : Text → ℕ
count_tokens text = length text / 4

abbrev failed_to_marshal : Error → Error
failed_to_marshal e = wrapped (codes "failed to marshal payload: ") e

abbrev failed_to_unmarshal : Error → Error
failed_to_unmarshal e = wrapped (codes "failed to unmarshal payload: ") e

abbrev reading : Option Error → Option Error
reading none = none
reading (some e) = some (failed_to_unmarshal e)

module _ (R : Redis) {P : Type 0} (C : Codec P) (q : QueueConfig) (F : Payloads P) where
  -- The job that trackUsageAsync makes.
  abbrev usage_job : Text → ℤ → Job P
  usage_job model tokens = record {
    id = [];
    kind = codes "usage_tracking";
    payload = F.usage model tokens;
    status = [];
    retries = pos 0;
    max_retries = pos 3;
    timeout = pos 30000000000;
    expires_at = none;
    queue = [];
    created_at = pos 0;
    started_at = none;
    finished_at = none;
    error = [];
    metadata = F.nil;
  }

  unfoldable pub track_usage_async : Moment → Text → ℤ → R.State → R.State × Option Error
  unfolding enqueue
  track_usage_async m model tokens s = (enqueue R C q m (usage_job model tokens) s).1

  abbrev total_tokens : TokenCalculation → ℤ
  total_tokens p = pos (count_tokens p.prompt) +ℤ pos (count_tokens p.response)

  -- An error of the tracking is only logged.
  abbrev calculated : Moment → Result TokenCalculation → R.State → R.State × Option Error
  calculated m (err e) s = (s, some (failed_to_unmarshal e))
  calculated m (ok p) s = ((track_usage_async m p.model (total_tokens p) s).0, none)

  unfoldable pub token_calculation_handler : JobHandler R P
  unfolding track_usage_async
  token_calculation_handler m job s = elim (F.marshal job.payload) [
    | err e ↦ (s, some (failed_to_marshal e))
    | ok text ↦ calculated m (F.read_token_calculation text) s
  ]

  abbrev reads : (Text → Option Error) → JobHandler R P
  reads read m job s = elim (F.marshal job.payload) [
    | err e ↦ (s, some (failed_to_marshal e))
    | ok text ↦ (s, reading (read text))
  ]

  abbrev pub usage_tracking_handler : JobHandler R P
  usage_tracking_handler = reads F.read_usage_tracking

  abbrev pub llm_caching_handler : JobHandler R P
  llm_caching_handler = reads F.read_llm_caching

  abbrev pub tenant_sync_handler : JobHandler R P
  tenant_sync_handler = reads F.read_tenant_sync

  -- The handlers that NewServer registers.
  abbrev pub registered : Worker R P → Worker R P
  registered w =
      let w1 = register w (codes "token_calculation") token_calculation_handler in
      let w2 = register w1 (codes "usage_tracking") usage_tracking_handler in
      let w3 = register w2 (codes "llm_caching") llm_caching_handler in
      register w3 (codes "tenant_sync") tenant_sync_handler
