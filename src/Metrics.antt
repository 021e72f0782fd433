-- ===== src/Metrics.antt =====
-- internal/metrics/prometheus.go: the metrics of the gateway. A method of `Metrics` is the list of its
-- uses of the Prometheus client (Metrics/Client), in the order of the calls; `perform` runs it.
pub mod Client
pub mod Vectors
pub mod Recordings
pub mod Counts
pub mod Runs
pub mod Registration
pub mod Memory
mod Tests
pub use Vectors.{Metrics}
use gateway_a.Prelude.{Text, Option, none, some, List, [], ◌∷◌, ℤ, itoa, Float64}
use gateway_a.Metrics.Client.{Vector, Change, inc, dec, added, put, observed, Use, Prometheus}
use gateway_a.Metrics.Vectors.{new_metrics, registered}

module _ {F : Type 0} (P : Prometheus F) where
  abbrev pub register_all : List Vector → P.Registry → Option P.Registry
  register_all [] s = some s
  register_all (v ∷ vs) s = elim (P.must_register v s) [ none ↦ none | some t ↦ register_all vs t ]

  -- NewMetrics, with what it does to the registry; `none` is its panic.
  unfoldable pub register_metrics : P.Registry → Option P.Registry
  unfolding new_metrics
  register_metrics = register_all (registered new_metrics)

  abbrev pub perform : List (Use F) → P.Registry → Option P.Registry
  perform [] s = some s
  perform (u ∷ us) s = elim (P.update u s) [ none ↦ none | some t ↦ perform us t ]

module _ {F : Type 0} ⦃f : Float64 F⦄ (m : Metrics) where
  -- m.vector.WithLabelValues(values...).change
  abbrev with : Vector → List Text → Change F → Use F
  with v values c = record { vector = v; values = values; change = c }

  unfoldable pub request_started : Text → Text → List (Use F)
  request_started endpoint method = with m.request_in_flight (endpoint ∷ method ∷ []) inc ∷ []

  unfoldable pub request_completed : Text → Text → F → ℤ → List (Use F)
  request_completed endpoint method duration status =
      with m.request_in_flight (endpoint ∷ method ∷ []) dec
      ∷ with m.request_duration (endpoint ∷ method ∷ []) (observed duration)
      ∷ with m.request_total (endpoint ∷ method ∷ (itoa status) ∷ []) inc
      ∷ []

  unfoldable pub llm_request : Text → Text → Text → List (Use F)
  llm_request model provider status =
      with m.llm_requests_total (model ∷ provider ∷ status ∷ []) inc ∷ []

  unfoldable pub llm_tokens : Text → Text → ℤ → List (Use F)
  llm_tokens model token_type count =
      with m.llm_tokens_total (model ∷ token_type ∷ []) (added (f.of_int count)) ∷ []

  unfoldable pub llm_latency : Text → Text → F → List (Use F)
  llm_latency model provider latency =
      with m.llm_latency (model ∷ provider ∷ []) (observed latency) ∷ []

  unfoldable pub llm_errorr : Text → Text → List (Use F)
  llm_errorr model error_type = with m.llm_errors_total (model ∷ error_type ∷ []) inc ∷ []

  unfoldable pub queue_job_enqueued : Text → Text → List (Use F)
  queue_job_enqueued queue job_type = with m.queue_jobs_enqueued (queue ∷ job_type ∷ []) inc ∷ []

  unfoldable pub queue_job_completed : Text → Text → List (Use F)
  queue_job_completed queue job_type = with m.queue_jobs_completed (queue ∷ job_type ∷ []) inc ∷ []

  unfoldable pub queue_job_failed : Text → Text → List (Use F)
  queue_job_failed queue job_type = with m.queue_jobs_failed (queue ∷ job_type ∷ []) inc ∷ []

  unfoldable pub queue_jobs_pending : Text → Text → ℤ → List (Use F)
  queue_jobs_pending queue job_type count =
      with m.queue_jobs_pending (queue ∷ job_type ∷ []) (put (f.of_int count)) ∷ []

  unfoldable pub queue_workers_active : Text → ℤ → List (Use F)
  queue_workers_active queue count =
      with m.queue_workers_active (queue ∷ []) (put (f.of_int count)) ∷ []

  unfoldable pub rate_limit_exceeded : Text → Text → List (Use F)
  rate_limit_exceeded client limit_type =
      with m.rate_limit_exceeded (client ∷ limit_type ∷ []) inc ∷ []

  unfoldable pub rate_limit_remaining : Text → Text → ℤ → List (Use F)
  rate_limit_remaining client limit_type count =
      with m.rate_limit_remaining (client ∷ limit_type ∷ []) (put (f.of_int count)) ∷ []

  unfoldable pub circuit_breaker_state : Text → ℤ → List (Use F)
  circuit_breaker_state name state =
      with m.circuit_breaker_state (name ∷ []) (put (f.of_int state)) ∷ []

  unfoldable pub circuit_breaker_call : Text → Text → List (Use F)
  circuit_breaker_call name result = with m.circuit_breaker_calls (name ∷ result ∷ []) inc ∷ []

  unfoldable pub tenant_quota_used : Text → Text → ℤ → List (Use F)
  tenant_quota_used tenant_id quota_type count =
      with m.tenant_quota_used (tenant_id ∷ quota_type ∷ []) (put (f.of_int count)) ∷ []

  unfoldable pub tenant_quota_total : Text → Text → ℤ → List (Use F)
  tenant_quota_total tenant_id quota_type count =
      with m.tenant_quota_total (tenant_id ∷ quota_type ∷ []) (put (f.of_int count)) ∷ []

  unfoldable pub tenant_usage : Text → Text → Text → ℤ → List (Use F)
  tenant_usage tenant_id model token_type count =
      with m.tenant_usage_total (tenant_id ∷ model ∷ token_type ∷ []) (added (f.of_int count)) ∷ []
