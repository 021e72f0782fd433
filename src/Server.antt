-- ===== src/Server.antt =====
-- internal/server/server.go: what NewServer sets up. The chain of the global middleware is in
-- Server/Chain.
pub mod Chain
pub mod Settings
pub mod Requests
pub mod Lifecycle
pub mod Exposition
pub mod Closing
mod Tests
use gateway_a.Prelude.{
  ℤ, pos, negsuc, leb_ℤ, ltb_ℤ, Text, codes, Bool, true, false, Option, none, some, List, [], ◌∷◌,
  ◌++◌, String, if◌then◌else◌,
}
use gateway_a.Config.{Config, Scanner, Environment, or_kept, number_or_kept}
use gateway_a.Handler.Guards.{LlmHandler, new_llm_handler}
use gateway_a.Queue.{QueueConfig}

-- The port of the server.
abbrev pub port_of_env : Environment → Text
port_of_env env = or_kept (env "PORT") (codes "8080")

unfoldable pub port_of : Environment → Option Config → Text
port_of env none = port_of_env env
port_of env (some c) = or_kept c.server.port (port_of_env env)

abbrev pub positive_or_kept : ℤ → ℤ → ℤ
positive_or_kept n kept = if ltb_ℤ (pos 0) n then n else kept

-- The handler of chat completions, from the configuration or from the environment.
unfoldable pub llm_handler_of : Scanner → Environment → Option Config → LlmHandler
llm_handler_of scanner env none =
    new_llm_handler (or_kept (env "LLM_UPSTREAM_URL") (codes "https://api.openai.com/v1"))
      (env "LLM_API_KEY") (number_or_kept scanner.scan_int (env "LLM_MAX_RETRIES") (pos 2))
      (number_or_kept scanner.parse_duration (env "LLM_TIMEOUT") (pos 120000000000))
llm_handler_of scanner env (some c) =
    new_llm_handler (or_kept c.llm.upstream_url (codes "https://api.openai.com/v1")) c.llm.api_key
      (positive_or_kept c.llm.max_retries (pos 2))
      (positive_or_kept c.llm.timeout (pos 120000000000))

-- The queue that NewServer connects to.
pub record QueueSettings : Type 0 where
  pub host : Text
  pub port : Text
  pub db : ℤ
  pub config : QueueConfig
  pub pool_size : ℤ

abbrev pub queue_settings : Environment → QueueSettings
queue_settings env = record {
  host = or_kept (env "REDIS_HOST") (codes "localhost");
  port = or_kept (env "REDIS_PORT") (codes "6379");
  db = pos 0;
  config = record {
    default_queue = codes "default";
    default_retries = pos 3;
    default_timeout = pos 30000000000;
  };
  pool_size = pos 4;
}

-- The routes, by the handlers that they are given.
pub data Endpoint : Type 0 where
  server_health root chat_completion llm_health metrics enqueue get_job_status list_jobs
        get_worker_stats :
      Endpoint

pub data Method : Type 0 where
  get post : Method

pub record Route : Type 0 where
  pub method : Method
  pub path : String
  pub endpoint : Endpoint

abbrev route : Method → String → Endpoint → Route
route method path endpoint = record { method = method; path = path; endpoint = endpoint }

-- Registered in any case.
abbrev pub base_routes : List Route
base_routes =
    route get "/health" server_health
    ∷ route get "/" root
    ∷ route post "/v1/chat/completions" chat_completion
    ∷ route get "/v1/health" llm_health
    ∷ route get "/metrics" metrics
    ∷ []

abbrev pub queue_routes : List Route
queue_routes =
    route post "/v1/queue/enqueue" enqueue
    ∷ route get "/v1/queue/jobs/:queue_id" get_job_status
    ∷ route get "/v1/queue/jobs" list_jobs
    ∷ route get "/v1/queue/stats" get_worker_stats
    ∷ []

-- What NewServer returns: `connected` is whether NewTaskQueue works.
pub record Server : Type 0 where
  pub port : Text
  pub llm_handler : LlmHandler
  pub routes : List Route
  pub queue : Option QueueSettings

unfoldable pub new_server : Scanner → Environment → Option Config → (connected : Bool) → Server
unfolding port_of llm_handler_of
new_server scanner env config connected = record {
  port = port_of env config;
  llm_handler = llm_handler_of scanner env config;
  routes = if connected then base_routes ++ queue_routes else base_routes;
  queue = if connected then some (queue_settings env) else none;
}
