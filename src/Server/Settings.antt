-- ===== src/Server/Settings.antt =====
-- The settings of a server of internal/server/server.go whose configuration comes from
-- config/config.go.
use gateway_a.Prelude.{
  ℤ, pos, Text, codes, Bool, none, some, [], ◌∷◌, ok, ◌≡◌, ◌⊎◌, inl, inr, ◌∙◌, ℕ, Error, refl, ap,
  arith, true, false,
}
use gateway_a.Config.{
  Config, Scanner, Environment, Files, path_or_default, load_path, load_file, load_from_env,
  load_config, number_or_kept, or_kept,
}
use gateway_a.Handler.Guards.{new_llm_handler}
use gateway_a.Server.{port_of, positive_or_kept, llm_handler_of, new_server}

or_kept-twice :
    (c : ℕ) (value default : Text)
    → or_kept (or_kept value (c ∷ default)) (c ∷ default) ≡ or_kept value (c ∷ default)
or_kept-twice c [] default = refl
or_kept-twice c (v ∷ value) default = refl

or_kept-nil : (value : Text) → or_kept value [] ≡ value
or_kept-nil [] = refl
or_kept-nil (v ∷ value) = refl

or_kept-same :
    (value kept : Text) → or_kept (or_kept value kept) (or_kept value kept) ≡ or_kept value kept
or_kept-same [] [] = refl
or_kept-same [] (c ∷ kept) = refl
or_kept-same (v ∷ value) kept = refl

-- The handler's own defaults are those of the server.
new_llm_handler-positive :
    (url key : Text) (retries timeout : ℤ)
    → new_llm_handler url key
        (positive_or_kept retries (pos 2))
        (positive_or_kept timeout (pos 120000000000))
      ≡ new_llm_handler url key retries timeout
new_llm_handler-positive url key retries timeout = ground arith

llm_handler-load_from_env :
    (scanner : Scanner) (env : Environment)
    → llm_handler_of scanner env (some (load_from_env scanner env))
      ≡ llm_handler_of scanner env none
unfolding llm_handler_of load_from_env
llm_handler-load_from_env scanner env =
    let retries = number_or_kept scanner.scan_int (env "LLM_MAX_RETRIES") (pos 2) in
    let timeout = number_or_kept scanner.parse_duration (env "LLM_TIMEOUT") (pos 120000000000) in
    let url = codes "https://api.openai.com/v1" in
    new_llm_handler-positive (or_kept (or_kept (env "LLM_UPSTREAM_URL") url) url)
      (or_kept (env "LLM_API_KEY") []) retries timeout
    ∙ ap (λ u. new_llm_handler u (or_kept (env "LLM_API_KEY") []) retries timeout)
        (or_kept-twice b'h' (env "LLM_UPSTREAM_URL") (codes "ttps://api.openai.com/v1"))
    ∙ ap (λ k. new_llm_handler (or_kept (env "LLM_UPSTREAM_URL") url) k retries timeout)
        (or_kept-nil (env "LLM_API_KEY"))

-- A server that is given the configuration of the environment is the server that reads the
-- environment itself: with the same port, routes and queue, and the same upstream, key, retries and
-- timeout of its handler, whatever the variables hold.
pub new_server-load_from_env :
    (scanner : Scanner) (env : Environment) (connected : Bool)
    → new_server scanner env (some (load_from_env scanner env)) connected
      ≡ new_server scanner env none connected
unfolding new_server port_of load_from_env
new_server-load_from_env scanner env connected =
    ground (arith, llm_handler-load_from_env scanner env, or_kept-same (env "PORT") (codes "8080"))

load_path-env :
    (scanner : Scanner) (env : Environment) (files : Files) (path : Text) (missing : Bool)
    → (missing ≡ true) ⊎ ((e : Error) × (files.read_error path ≡ some e))
    → load_path scanner env files path missing ≡ ok (load_from_env scanner env)
load_path-env scanner env files path true h = refl
load_path-env scanner env files path false (inl h) = absurd (ground (arith, h))
load_path-env scanner env files path false (inr (e, h)) = ap (load_file scanner env files path) h

-- With no configuration file, or one that cannot be read, loading the configuration does not fail, and
-- NewServer makes of what it returns the server of the environment alone.
pub load_config-new_server :
    (scanner : Scanner) (env : Environment) (files : Files) (path : Text) (connected : Bool)
    → (files.missing (path_or_default path) ≡ true)
      ⊎ ((e : Error) × (files.read_error (path_or_default path) ≡ some e))
    → (config : Config) × (load_config scanner env files path ≡ ok config)
      × (new_server scanner env (some config) connected ≡ new_server scanner env none connected)
unfolding load_config
load_config-new_server scanner env files path connected h = (
  load_from_env scanner env,
  load_path-env scanner env files (path_or_default path) (files.missing (path_or_default path)) h,
  new_server-load_from_env scanner env connected,
)
