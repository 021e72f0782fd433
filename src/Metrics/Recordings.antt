-- ===== src/Metrics/Recordings.antt =====
-- internal/metrics/prometheus.go: any call of a method of `Metrics`.
use gateway_a.Prelude.{Text, Bool, false, List, [], ◌∷◌, ◌++◌, ℤ, pos, ltb_ℤ, Float64}
use gateway_a.Metrics as Methods
use gateway_a.Metrics.Client.{Use}
use gateway_a.Metrics.{Metrics}

-- A call of a method of `Metrics`, and its uses of the client.
pub data Recording (F : Type 0) : Type 0 where
  request_started : (endpoint : Text) → (method : Text) → Recording F
  request_completed :
      (endpoint : Text) → (method : Text) → (duration : F) → (status : ℤ) → Recording F
  llm_request : (model : Text) → (provider : Text) → (status : Text) → Recording F
  llm_tokens : (model : Text) → (token_type : Text) → (count : ℤ) → Recording F
  llm_latency : (model : Text) → (provider : Text) → (latency : F) → Recording F
  llm_errorr : (model : Text) → (error_type : Text) → Recording F
  queue_job_enqueued : (queue : Text) → (job_type : Text) → Recording F
  queue_job_completed : (queue : Text) → (job_type : Text) → Recording F
  queue_job_failed : (queue : Text) → (job_type : Text) → Recording F
  queue_jobs_pending : (queue : Text) → (job_type : Text) → (count : ℤ) → Recording F
  queue_workers_active : (queue : Text) → (count : ℤ) → Recording F
  rate_limit_exceeded : (client : Text) → (limit_type : Text) → Recording F
  rate_limit_remaining : (client : Text) → (limit_type : Text) → (count : ℤ) → Recording F
  circuit_breaker_state : (name : Text) → (state : ℤ) → Recording F
  circuit_breaker_call : (name : Text) → (result : Text) → Recording F
  tenant_quota_used : (tenant_id : Text) → (quota_type : Text) → (count : ℤ) → Recording F
  tenant_quota_total : (tenant_id : Text) → (quota_type : Text) → (count : ℤ) → Recording F
  tenant_usage :
      (tenant_id : Text) → (model : Text) → (token_type : Text) → (count : ℤ) → Recording F

module _ {F : Type 0} ⦃f : Float64 F⦄ where
  unfoldable pub uses : Metrics → Recording F → List (Use F)
  unfolding Methods.request_started Methods.request_completed Methods.llm_request Methods.llm_tokens
      Methods.llm_latency Methods.llm_errorr Methods.queue_job_enqueued Methods.queue_job_completed
      Methods.queue_job_failed Methods.queue_jobs_pending Methods.queue_workers_active
      Methods.rate_limit_exceeded Methods.rate_limit_remaining Methods.circuit_breaker_state
      Methods.circuit_breaker_call Methods.tenant_quota_used Methods.tenant_quota_total
      Methods.tenant_usage
  uses m (request_started endpoint method) = Methods.request_started m endpoint method
  uses m (request_completed endpoint method duration status) =
      Methods.request_completed m endpoint method duration status
  uses m (llm_request model provider status) = Methods.llm_request m model provider status
  uses m (llm_tokens model token_type count) = Methods.llm_tokens m model token_type count
  uses m (llm_latency model provider latency) = Methods.llm_latency m model provider latency
  uses m (llm_errorr model error_type) = Methods.llm_errorr m model error_type
  uses m (queue_job_enqueued queue job_type) = Methods.queue_job_enqueued m queue job_type
  uses m (queue_job_completed queue job_type) = Methods.queue_job_completed m queue job_type
  uses m (queue_job_failed queue job_type) = Methods.queue_job_failed m queue job_type
  uses m (queue_jobs_pending queue job_type count) =
      Methods.queue_jobs_pending m queue job_type count
  uses m (queue_workers_active queue count) = Methods.queue_workers_active m queue count
  uses m (rate_limit_exceeded client limit_type) = Methods.rate_limit_exceeded m client limit_type
  uses m (rate_limit_remaining client limit_type count) =
      Methods.rate_limit_remaining m client limit_type count
  uses m (circuit_breaker_state name state) = Methods.circuit_breaker_state m name state
  uses m (circuit_breaker_call name result) = Methods.circuit_breaker_call m name result
  uses m (tenant_quota_used tenant_id quota_type count) =
      Methods.tenant_quota_used m tenant_id quota_type count
  uses m (tenant_quota_total tenant_id quota_type count) =
      Methods.tenant_quota_total m tenant_id quota_type count
  uses m (tenant_usage tenant_id model token_type count) =
      Methods.tenant_usage m tenant_id model token_type count

  unfoldable pub uses_of_all : Metrics → List (Recording F) → List (Use F)
  uses_of_all m [] = []
  uses_of_all m (r ∷ rs) = uses m r ++ uses_of_all m rs

module _ {F : Type 0} where
  -- The texts that a caller gives for labels, and whether the call adds a negative number to a
  -- counter.
  abbrev pub given : Recording F → List Text
  given (request_started endpoint method) = endpoint ∷ method ∷ []
  given (request_completed endpoint method duration status) = endpoint ∷ method ∷ []
  given (llm_request model provider status) = model ∷ provider ∷ status ∷ []
  given (llm_tokens model token_type count) = model ∷ token_type ∷ []
  given (llm_latency model provider latency) = model ∷ provider ∷ []
  given (llm_errorr model error_type) = model ∷ error_type ∷ []
  given (queue_job_enqueued queue job_type) = queue ∷ job_type ∷ []
  given (queue_job_completed queue job_type) = queue ∷ job_type ∷ []
  given (queue_job_failed queue job_type) = queue ∷ job_type ∷ []
  given (queue_jobs_pending queue job_type count) = queue ∷ job_type ∷ []
  given (queue_workers_active queue count) = queue ∷ []
  given (rate_limit_exceeded client limit_type) = client ∷ limit_type ∷ []
  given (rate_limit_remaining client limit_type count) = client ∷ limit_type ∷ []
  given (circuit_breaker_state name state) = name ∷ []
  given (circuit_breaker_call name result) = name ∷ result ∷ []
  given (tenant_quota_used tenant_id quota_type count) = tenant_id ∷ quota_type ∷ []
  given (tenant_quota_total tenant_id quota_type count) = tenant_id ∷ quota_type ∷ []
  given (tenant_usage tenant_id model token_type count) = tenant_id ∷ model ∷ token_type ∷ []

  abbrev pub adds_negative : Recording F → Bool
  adds_negative (llm_tokens model token_type count) = ltb_ℤ count (pos 0)
  adds_negative (tenant_usage tenant_id model token_type count) = ltb_ℤ count (pos 0)
  adds_negative _ = false
