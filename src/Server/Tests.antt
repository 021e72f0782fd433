-- ===== src/Server/Tests.antt =====
-- The theorems on the server at a chain that runs as documented, and at concrete settings.
use gateway_a.Prelude.{
  ℤ, pos, Text, text_eq, codes, true, false, none, some, List, [], ◌∷◌, ◌++◌, ◌≡◌, refl, message,
  ok, inr, string_eq, ◌==◌, if◌then◌else◌,
}
use gateway_a.Samples.{whole}
use gateway_a.Http.{Action, abort, set_status}
use gateway_a.CircuitBreaker.{CircuitBreaker, Env, new}
use gateway_a.Config.{Config, Scanner, Environment, Files, load_config}
use gateway_a.RateLimit.{Outcome, done, failed, panicked}
use gateway_a.Server.{new_server}
use gateway_a.Server.Chain.{
  Step, Chain, Documented, Request, aborts, after, stateless, global_middleware, handle_request,
}
use gateway_a.Server.Requests.{handle_request_500}
use gateway_a.RequestId.{middleware as request_id}
use gateway_a.Server.Settings.{load_config-new_server}

module _ {S : Type 0} where
  -- What follows the first handler.
  abbrev following : Step S → S × Outcome (List Action) → S × Outcome (List Action)
  following rest (s, done actions) =
      let later = after actions (rest s) in if aborts actions then (s, done actions) else later
  following rest (s, failed e) = (s, failed e)
  following rest (s, panicked) = (s, panicked)

  abbrev run : List (Step S) → Step S
  run [] s = (s, done [])
  run (h ∷ hs) s = following (run hs) (h s)

  abbrev recover : S × Outcome (List Action) → S × Outcome (List Action)
  recover (s, panicked) = (s, done (set_status 500 ∷ abort ∷ []))
  recover (s, done actions) = (s, done actions)
  recover (s, failed e) = (s, failed e)

  abbrev chain : Chain S
  chain = record { run = run; recovered = λ hs s. recover (run hs s) }

  abbrev documented : Documented chain
  documented = record {
    empty = λ s. refl;
    on_panic = λ h hs s s' e. rw e refl;
    on_abort = λ h hs s s' actions e a. rw (e, a) refl;
    on_return = λ h hs s s' actions e a. rw (e, a) refl;
    on_recovery = λ hs s s' e. ([], rw e refl);
    on_no_panic = λ hs s s' actions e. rw e refl;
  }

abbrev live : Env
live = record {
  allow_time = pos 10;
  record_time = pos 20;
  reset_time = pos 30;
  err_before = none;
  err_after = none;
}

abbrev cb : CircuitBreaker ℤ
cb = new (record {
  failure_threshold = pos 50;
  reset_timeout = pos 30000000000;
  half_open_max_requests = pos 3;
  timeout = pos 30000000000;
})

abbrev request : Text → Request
request method = record {
  headers = record { request_id = []; trace_id = []; alternative_request_id = [] };
  generated = codes "1f";
  origin = codes "https://a";
  method = method;
  now = pos 1000;
  bucket = none;
  env = live;
}

abbrev endpoint : Step (CircuitBreaker ℤ)
endpoint = stateless []

handle_request_500_example :
    (chain.run (global_middleware (request (codes "POST")) ++ endpoint ∷ []) cb ≡ (cb, panicked))
    × ((before : List Action) × (handle_request chain (request (codes "POST")) endpoint cb
          ≡ (cb, done (before ++ set_status 500 ∷ abort ∷ []))))
handle_request_500_example =
    handle_request_500 chain documented (request (codes "POST")) endpoint cb (λ e. cc e)

-- No variable is set but one.
abbrev environment : Environment
environment name = if name == "LLM_MAX_RETRIES" then codes "0" else []

abbrev scanner : Scanner
scanner = record { scan_int = λ s. some (pos 0); parse_duration = λ s. none }

abbrev files : Files
files = record {
  missing = λ path. false;
  read_error = λ path. some (message (codes "permission denied"));
  unmarshal = λ path c. ok c;
}

load_config-new_server_example :
    (config : Config) × (load_config scanner environment files [] ≡ ok config)
    × (new_server scanner environment (some config) true ≡ new_server scanner environment none true)
load_config-new_server_example =
    load_config-new_server scanner environment files [] true
      (inr (message (codes "permission denied"), refl))
