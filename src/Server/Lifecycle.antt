-- ===== src/Server/Lifecycle.antt =====
-- The start of the gateway in cmd/main.go, Server.Shutdown of internal/server/server.go, and Start and
-- Stop of the worker in pkg/queue/queue.go. Logging, the connections of Redis and of the database, and
-- what the server's Run and Shutdown return are parameters.
use gateway_a.Prelude.{
  ℕ, Text, codes, Bool, true, false, Option, none, some, List, [], ◌∷◌, ◌++◌, Error, wrapped,
  Result, ok, err, ◌≡◌, refl, ap, ◌∙◌, if◌then◌else◌,
}
use gateway_a.Config.{
  Config, Scanner, Environment, Files, load_from_env, load_path, load_config, path_or_default,
}
use gateway_a.Queue.Worker.{Worker}
use gateway_a.Queue.Client.{Redis}
use gateway_a.Server.{Server, new_server}
use gateway_a.Server.Settings.{new_server-load_from_env}

-- What happens around the start.
pub record World : Type 0 where
  -- logLevel.UnmarshalText of the lower-cased text, and InitLogger
  pub level : Text → Result (Unit {0})
  pub logger : Result (Unit {0})
  pub redis_error : Option Error
  pub database_error : Option Error
  -- whether NewTaskQueue works
  pub queue_connected : Bool
  pub run_error : Option Error

-- log.Fatalf, with its text before the error, or the server that runs, with whether Redis and the
-- database are there.
pub data Startup : Type 0 where
  fatal : Text → Error → Startup
  running : (redis database : Bool) → Server → Startup

abbrev pub is_none : Option Error → Bool
is_none none = true
is_none (some e) = false

-- From `srv.Start()` on.
abbrev pub started : Bool → Bool → Server → Option Error → Startup
started redis database server none = running redis database server
started redis database server (some e) = fatal (codes "Failed to start server: ") e

abbrev pub with_logger : Scanner → Environment → World → Config → Result (Unit {0}) → Startup
with_logger scanner env w config (err e) = fatal (codes "Failed to initialize logger: ") e
with_logger scanner env w config (ok _) =
    started (is_none w.redis_error) (is_none w.database_error)
      (new_server scanner env (some config) w.queue_connected) w.run_error

abbrev pub with_level : Scanner → Environment → World → Config → Result (Unit {0}) → Startup
with_level scanner env w config (err e) = fatal (codes "Failed to parse log level: ") e
with_level scanner env w config (ok _) = with_logger scanner env w config w.logger

abbrev pub with_config : Scanner → Environment → World → Result Config → Startup
with_config scanner env w (err e) = fatal (codes "Failed to load config: ") e
with_config scanner env w (ok config) =
    with_level scanner env w config (w.level config.logging_level)

-- main, for the path of the flag.
unfoldable pub main : Scanner → Environment → Files → World → (config_path : Text) → Startup
main scanner env files w config_path =
    with_config scanner env w (load_config scanner env files config_path)

-- Start of the worker: the copies of its loop.
abbrev pub start_worker : {R : Redis} {P : Type 0} → (pool_size : ℕ) → Worker R P → Worker R P × ℕ
start_worker pool_size w = (record w { running = true }, pool_size)

-- Stop: closing a closed channel panics, which is `none`.
abbrev pub stop_worker : {R : Redis} {P : Type 0} → Worker R P → Option (Worker R P)
stop_worker w = if w.closed then none else some (record w { running = false; closed = true })

-- What Shutdown calls besides the worker.
pub data Closing : Type 0 where
  queue_closed server_shut_down : Closing

abbrev pub wrapped_error : Option Error → Option Error
wrapped_error none = none
wrapped_error (some e) = some (wrapped (codes "server shutdown error: ") e)

abbrev pub queue_closing : Bool → List Closing
queue_closing has_queue = if has_queue then queue_closed ∷ [] else []

-- The worker afterwards, what is closed, and the error; `none` is a panic.
abbrev pub ShutdownResult : Redis → Type 0 → Type 0
ShutdownResult R P = Option (Option (Worker R P) × List Closing × Option Error)

module _ {R : Redis} {P : Type 0} where
  abbrev pub after_worker : Bool → Option Error → Option (Worker R P) → ShutdownResult R P
  after_worker has_queue shutdown_error worker =
      some (worker, queue_closing has_queue ++ server_shut_down ∷ [], wrapped_error shutdown_error)

  abbrev pub if_stopped : Bool → Option Error → Option (Worker R P) → ShutdownResult R P
  if_stopped has_queue shutdown_error none = none
  if_stopped has_queue shutdown_error (some w) = after_worker has_queue shutdown_error (some w)

  -- Shutdown of a server with or without a worker and a queue.
  unfoldable pub shutdown :
      Option (Worker R P)
      → (has_queue : Bool) → (shutdown_error : Option Error) → ShutdownResult R P
  shutdown none has_queue shutdown_error = after_worker has_queue shutdown_error none
  shutdown (some w) has_queue shutdown_error = if_stopped has_queue shutdown_error (stop_worker w)

  -- A server with a worker can be shut down once: the second time panics.
  pub shutdown-shutdown :
      (w : Worker R P) (has_queue : Bool) (e e' : Option Error)
      → w.closed ≡ false
      → (w' : Worker R P) × (closings : List Closing) × (result : Option Error) × (shutdown
            (some w)
            has_queue
            e
          ≡ some (some w', closings, result))
        × (shutdown (some w') has_queue e' ≡ none)
  unfolding shutdown
  shutdown-shutdown w has_queue e e' h = (
    record w { running = false; closed = true },
    queue_closing has_queue ++ server_shut_down ∷ [],
    wrapped_error e,
    rw h refl,
    refl,
  )

with_level-running :
    (scanner : Scanner) (env : Environment) (w : World) (config : Config)
    → w.level config.logging_level ≡ ok tt
    → w.logger ≡ ok tt
    → w.run_error ≡ none
    → with_level scanner env w config (w.level config.logging_level)
      ≡ running
          (is_none w.redis_error)
          (is_none w.database_error)
          (new_server scanner env (some config) w.queue_connected)
with_level-running scanner env w config l g r =
    ap (with_level scanner env w config) l
    ∙ ap (with_logger scanner env w config) g
    ∙ ap
        (started (is_none w.redis_error) (is_none w.database_error)
          (new_server scanner env (some config) w.queue_connected))
        r

-- Without a configuration file, the gateway starts whatever Redis and the database do, with the server of
-- the environment: where LOG_LEVEL, or "info", is a level, the logger can be made and the server runs.
pub main-running :
    (scanner : Scanner) (env : Environment) (files : Files) (w : World) (path : Text)
    → files.missing (path_or_default path) ≡ true
    → w.level (load_from_env scanner env).logging_level ≡ ok tt
    → w.logger ≡ ok tt
    → w.run_error ≡ none
    → main scanner env files w path
      ≡ running
          (is_none w.redis_error)
          (is_none w.database_error)
          (new_server scanner env none w.queue_connected)
unfolding main load_config
main-running scanner env files w path missing l g r =
    ap (λ b. with_config scanner env w (load_path scanner env files (path_or_default path) b))
      missing
    ∙ with_level-running scanner env w (load_from_env scanner env) l g r
    ∙ ap (running (is_none w.redis_error) (is_none w.database_error))
        (new_server-load_from_env scanner env w.queue_connected)
