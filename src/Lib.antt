-- ===== src/Lib.antt =====
-- Gateway-A, an HTTP gateway in front of a provider of large language models: its middleware, its
-- client of the provider, its audit trail, its queue of jobs and its plugins.
--
-- The parts and the files that model them (paths from the repository's root):
--   CircuitBreaker             middleware/circuitbreaker/circuit.go: `call` is Call, and
--                              `transition_to`, `allow_request`, `record_failure` and
--                              `record_success` are the functions of those names
--   CircuitBreaker/Middleware  middleware/circuitbreaker/middleware.go: Handle, WrapHandler,
--                              CircuitBreakerChain
--   LlmClient                  internal/handler/llm_client.go: ChatCompletion is `chat_completion`,
--                              and the function that it gives to the breaker is `attempts`;
--                              LlmClient/Stream is StreamChatCompletion, whose read loop is
--                              `stream_loop`
--   Handler                    internal/handler/llm.go: `admit` is the guards of ChatCompletion and
--                              `serve` the whole handler for a request without a stream;
--                              Handler/Stream is streamChatCompletion and the search for a usage in
--                              its buffer; Handler/Tenants is getTenantByAPIKey, and Handler/Keys
--                              createAPIKey, of internal/handler/helpers.go; Handler/Whole is
--                              ChatCompletion with both its halves
--   Audit                      middleware/audit/audit.go: redaction and the middleware; the stores
--                              are in Audit/InMemory and Audit/FileStore, their interface in
--                              Audit/Stores, CreateEvent and ExtractRequestDetails in
--                              Audit/Events
--   Wasm                       wasm/types.go: the plugin chain; Wasm/Runtime is wasm/plugin.go
--                              and Wasm/Exports wasm/exports.go
--   Security                   middleware/security/security.go: security headers and CORS
--   Tokenizer                  internal/tokenizer/tokenizer.go
--   RequestId                  middleware/requestid/request_id.go, and SanitizeString of
--                              internal/logging/logger.go
--   ConnectionPool             middleware/connectionpool: the counters of pool.go, the retry loop
--                              of middleware.go, and the clients of both in
--                              ConnectionPool/Clients
--   Validation                 middleware/validation/validation.go: the checks of one field in
--                              Validation/Checks, ValidateRequest and Middleware in
--                              Validation/Requests, sanitizeString in Validation/Sanitize and
--                              SanitizeInput in Validation/Nested, the schemas in
--                              Validation/Schemas
--   Usage                      internal/handler/helpers.go: `check_quota` is checkQuota, and
--                              `record_usage_with_retry` is recordUsageWithRetry;
--                              Usage/DeadLetters is ProcessUsageDeadLetter, and Usage/Metering both
--                              with their counters
--   RateLimit                  middleware/ratelimit/token_bucket.go: `script` is the Lua script of
--                              Check; RateLimit/Tokens is GetTokens, Reset and
--                              GetRateLimitStatus; RateLimit/Composite is composite.go and
--                              RateLimit/Middleware is middleware.go
--   Queue                      pkg/queue/queue.go: the operations of TaskQueue; Queue/Worker is its
--                              worker, Queue/Handlers is pkg/queue/handler.go, and Queue/Api is
--                              internal/handler/queue.go
--   Config                     config/config.go
--   Connections                pkg/database/database.go, pkg/redis/redis.go, and NewTaskQueue of
--                              pkg/queue/queue.go
--   Metrics                    internal/metrics/prometheus.go: the methods as uses of the Prometheus
--                              client (Metrics/Client); Handler/Metering is what they do to the
--                              answer of a request
--   Server                     internal/server/server.go: `new_server` is NewServer;
--                              Server/Chain is the chain of the global middleware, behind the
--                              Recovery of server.Default, and
--                              Server/Lifecycle the start in cmd/main.go and Shutdown;
--                              Server/Exposition is the handler of /metrics, and
--                              Server/Closing what main closes on a signal
--   Http                       what a handler does with a request of the web framework
--   Prelude                    integers, texts, maps, errors and lists that the parts share
--   Samples                    a type of numbers for the tests
--
-- The client calls the provider inside `call` of the breaker, so that LlmClient stands on
-- CircuitBreaker; Handler stands on LlmClient, Usage and, for the estimate of a stream, Tokenizer.
-- Server puts the middleware of RequestId, Security, RateLimit and CircuitBreaker in front of the
-- endpoints, which Validation may guard as well; Handler/Keys uses the key pattern of Validation. The
-- other parts are independent of each other.
--
-- State is passed explicitly: an operation takes the record of the component and returns the new
-- one. Each reading of the clock and of the context is a field of an argument (`Env`, `Exchange`,
-- `Upstream`). One circuit breaker is modelled under calls one after another; the file store and
-- the pool's counters are step relations, for any interleaving. A Go `int` is an integer `ℤ` with
-- the wrap-around of `to_int32` or `to_int64` where the code adds. A handler is the list of the
-- actions that it performs.
--
-- Parameters, for code outside the repository: `Float64` (IEEE arithmetic), the JSON codec, the
-- HTTP client (the replies of `Upstream`), RFC 3339 times, `strings.ToLower`, and the regular
-- expressions, url.Parse and net.ParseIP of Validation (`External`), the SHA-256 hash of a key, and
-- the file system and wazero (`Host`), viper (`Files`), fmt.Sscanf and time.ParseDuration
-- (`Scanner`), and how Hertz runs a chain of handlers and recovers from a panic of one
-- (`Chain`, with its documented laws in `Documented`), the Prometheus client (`Prometheus`, with its documented behaviour in `IsLawful`) and
-- the verbs %q and %g of fmt (`Verbs`). The database of Usage is a list of rows, and a statement of it either works or fails
-- and changes nothing (`Database`).
--
-- The token bucket counts tokens in thousandths. With times in milliseconds and a whole rate per second
-- every number of the scripts is then exact, but Lua computes in doubles, whose rounding may let a
-- comparison close to a whole token come out otherwise. The Redis of the bucket is whether a call fails and
-- how a number reaches Go. The Redis of
-- the queue is a record of commands over an unknown state with the documented laws
-- (Queue/Client); Queue/Memory and Queue/Written are instances for the tests.
--
-- Fuel: EstimateTokens and CountTokens recurse on the depth of the call stack, and the theorems on
-- them hold at every depth. `generate` prints 64 bits with 16 digits of fuel, and `decimal` a
-- number n with n + 1, which always suffice. The retry loops are structural on the attempts left.
--
-- Not modelled: the example plugin, and what only calls a library: the headers of a request to the
-- provider, the subscription to a channel of the queue, the closing of the runtime of plugins, the run
-- of Hertz in Start, the connections of pkg/redis and pkg/database, and the logger.
pub mod Prelude
pub mod Samples
pub mod Http
pub mod CircuitBreaker
pub mod Audit
pub mod Wasm
pub mod Security
pub mod Server
pub mod Tokenizer
pub mod RequestId
pub mod Config
pub mod Connections
pub mod ConnectionPool
pub mod LlmClient
pub mod Metrics
pub mod Validation
pub mod Usage
pub mod RateLimit
pub mod Queue
pub mod Handler
