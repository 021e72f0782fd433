-- ===== src/Metrics/Vectors.antt =====
-- internal/metrics/prometheus.go: the metrics that NewMetrics makes and registers.
use gateway_a.Prelude.{List, [], ◌∷◌}
use gateway_a.Metrics.Client.{Vector, counter, gauge, histogram}

pub record Metrics : Type 0 where
  pub request_total : Vector
  pub request_duration : Vector
  pub request_in_flight : Vector
  pub llm_requests_total : Vector
  pub llm_tokens_total : Vector
  pub llm_latency : Vector
  pub llm_errors_total : Vector
  pub queue_jobs_enqueued : Vector
  pub queue_jobs_completed : Vector
  pub queue_jobs_failed : Vector
  pub queue_jobs_pending : Vector
  pub queue_workers_active : Vector
  pub rate_limit_exceeded : Vector
  pub rate_limit_remaining : Vector
  pub circuit_breaker_state : Vector
  pub circuit_breaker_calls : Vector
  pub tenant_quota_used : Vector
  pub tenant_quota_total : Vector
  pub tenant_usage_total : Vector

-- The fields of NewMetrics.
unfoldable pub new_metrics : Metrics
new_metrics = record {
  request_total = record {
    kind = counter;
    name = "gateway_a_requests_total";
    help = "Total number of requests";
    labels = "endpoint" ∷ "method" ∷ "status" ∷ [];
  };
  request_duration = record {
    kind = histogram (record { start = "0.001"; factor = 2; count = 10 });
    name = "gateway_a_request_duration_seconds";
    help = "Request duration in seconds";
    labels = "endpoint" ∷ "method" ∷ [];
  };
  request_in_flight = record {
    kind = gauge;
    name = "gateway_a_requests_in_flight";
    help = "Number of requests in flight";
    labels = "endpoint" ∷ "method" ∷ [];
  };
  llm_requests_total = record {
    kind = counter;
    name = "gateway_a_llm_requests_total";
    help = "Total LLM requests";
    labels = "model" ∷ "provider" ∷ "status" ∷ [];
  };
  llm_tokens_total = record {
    kind = counter;
    name = "gateway_a_llm_tokens_total";
    help = "Total tokens processed";
    labels = "model" ∷ "type" ∷ [];
  };
  llm_latency = record {
    kind = histogram (record { start = "0.01"; factor = 2; count = 10 });
    name = "gateway_a_llm_latency_seconds";
    help = "LLM API latency in seconds";
    labels = "model" ∷ "provider" ∷ [];
  };
  llm_errors_total = record {
    kind = counter;
    name = "gateway_a_llm_errors_total";
    help = "Total LLM errors";
    labels = "model" ∷ "error_type" ∷ [];
  };
  queue_jobs_enqueued = record {
    kind = counter;
    name = "gateway_a_queue_jobs_enqueued_total";
    help = "Total jobs enqueued";
    labels = "queue" ∷ "job_type" ∷ [];
  };
  queue_jobs_completed = record {
    kind = counter;
    name = "gateway_a_queue_jobs_completed_total";
    help = "Total jobs completed";
    labels = "queue" ∷ "job_type" ∷ [];
  };
  queue_jobs_failed = record {
    kind = counter;
    name = "gateway_a_queue_jobs_failed_total";
    help = "Total jobs failed";
    labels = "queue" ∷ "job_type" ∷ [];
  };
  queue_jobs_pending = record {
    kind = gauge;
    name = "gateway_a_queue_jobs_pending";
    help = "Number of pending jobs";
    labels = "queue" ∷ "job_type" ∷ [];
  };
  queue_workers_active = record {
    kind = gauge;
    name = "gateway_a_queue_workers_active";
    help = "Number of active workers";
    labels = "queue" ∷ [];
  };
  rate_limit_exceeded = record {
    kind = counter;
    name = "gateway_a_rate_limit_exceeded_total";
    help = "Total rate limit exceeded events";
    labels = "client" ∷ "limit_type" ∷ [];
  };
  rate_limit_remaining = record {
    kind = gauge;
    name = "gateway_a_rate_limit_remaining";
    help = "Remaining rate limit";
    labels = "client" ∷ "limit_type" ∷ [];
  };
  circuit_breaker_state = record {
    kind = gauge;
    name = "gateway_a_circuit_breaker_state";
    help = "Circuit breaker state (0=closed, 1=open, 2=half-open)";
    labels = "name" ∷ [];
  };
  circuit_breaker_calls = record {
    kind = counter;
    name = "gateway_a_circuit_breaker_calls_total";
    help = "Total circuit breaker calls";
    labels = "name" ∷ "result" ∷ [];
  };
  tenant_quota_used = record {
    kind = gauge;
    name = "gateway_a_tenant_quota_used";
    help = "Tenant quota used";
    labels = "tenant_id" ∷ "quota_type" ∷ [];
  };
  tenant_quota_total = record {
    kind = gauge;
    name = "gateway_a_tenant_quota_total";
    help = "Tenant total quota";
    labels = "tenant_id" ∷ "quota_type" ∷ [];
  };
  tenant_usage_total = record {
    kind = counter;
    name = "gateway_a_tenant_usage_total";
    help = "Total tenant usage (tokens)";
    labels = "tenant_id" ∷ "model" ∷ "type" ∷ [];
  };
}

-- Its calls of prometheus.MustRegister, in order.
abbrev pub registered : Metrics → List Vector
registered m =
    m.request_total ∷ m.request_duration ∷ m.request_in_flight ∷ m.llm_requests_total
    ∷ m.llm_tokens_total ∷ m.llm_latency ∷ m.llm_errors_total ∷ m.queue_jobs_enqueued
    ∷ m.queue_jobs_completed ∷ m.queue_jobs_failed ∷ m.queue_jobs_pending ∷ m.queue_workers_active
    ∷ m.rate_limit_exceeded ∷ m.rate_limit_remaining ∷ m.circuit_breaker_state
    ∷ m.circuit_breaker_calls ∷ m.tenant_quota_used ∷ m.tenant_quota_total ∷ m.tenant_usage_total
    ∷ []
