-- ===== src/Server/Chain.antt =====
-- The global middleware that NewServer of internal/server/server.go registers, over what the web
-- framework (github.com/cloudwego/hertz) does with a chain of handlers.
use gateway_a.Prelude.{ℤ, Text, Bool, true, false, Option, List, [], ◌∷◌, ◌++◌, any, ◌≡◌, Float64}
use gateway_a.Http.{Action, next, abort, set_status}
use gateway_a.CircuitBreaker.{CircuitBreaker, Env}
use gateway_a.CircuitBreaker.Middleware.{new_middleware, handle}
use gateway_a.RateLimit.{Bucket, Outcome, done, failed, panicked}
use gateway_a.RateLimit.Middleware.{MiddlewareOptions, default_options, middleware}
use gateway_a.RequestId.{Headers, middleware as request_id}
use gateway_a.Security.{security, default_security_headers, cors, default_cors_options}

-- A handler, on what the handlers share: what it does to its request context, or a panic.
abbrev pub Step : Type 0 → Type 0
Step S = S → S × Outcome (List Action)

abbrev pub is_abort : Action → Bool
is_abort abort = true
is_abort _ = false

abbrev pub aborts : List Action → Bool
aborts = any is_abort

-- The actions of one handler, before those of the others.
abbrev pub after :
    {S : Type 0} → List Action → S × Outcome (List Action) → S × Outcome (List Action)
after actions (s, done later) = (s, done (actions ++ later))
after actions (s, failed e) = (s, failed e)
after actions (s, panicked) = (s, panicked)

-- How Hertz runs a chain, as RequestContext documents it: the handlers run in their order, whether or
-- not one calls Next, until one calls Abort; a panic ends the chain.
-- `recovered` is the chain behind the handler recovery.Recovery, which the engine of server.Default
-- installs before any other.
pub record Chain (S : Type 0) : Type 0 where
  pub run : List (Step S) → Step S
  pub recovered : List (Step S) → Step S

pub record Documented {S : Type 0} (chain : Chain S) : Type 0 where
  pub empty : (s : S) → chain.run [] s ≡ (s, done [])
  pub on_panic :
      (h : Step S) (hs : List (Step S)) (s s' : S)
      → h s ≡ (s', panicked)
      → chain.run (h ∷ hs) s ≡ (s', panicked)
  pub on_abort :
      (h : Step S) (hs : List (Step S)) (s s' : S) (actions : List Action)
      → h s ≡ (s', done actions)
      → aborts actions ≡ true
      → chain.run (h ∷ hs) s ≡ (s', done actions)
  pub on_return :
      (h : Step S) (hs : List (Step S)) (s s' : S) (actions : List Action)
      → h s ≡ (s', done actions)
      → aborts actions ≡ false
      → chain.run (h ∷ hs) s ≡ after actions (chain.run hs s')
  -- Recovery recovers from a panic and aborts with the status 500, behind what was done before.
  pub on_recovery :
      (hs : List (Step S)) (s s' : S)
      → chain.run hs s ≡ (s', panicked)
      → (before : List Action) × (chain.recovered hs s
          ≡ (s', done (before ++ set_status 500 ∷ abort ∷ [])))
  pub on_no_panic :
      (hs : List (Step S)) (s s' : S) (actions : List Action)
      → chain.run hs s ≡ (s', done actions)
      → chain.recovered hs s ≡ (s', done actions)

-- What the middleware reads of a request, the identifier that the generator would make, the readings
-- of the clock, and the hash that Redis holds under the key of the request.
pub record Request : Type 0 where
  pub headers : Headers
  pub generated : Text
  pub origin : Text
  pub method : Text
  pub now : ℤ
  pub bucket : Option Bucket
  pub env : Env

module _ {S : Type 0} where
  -- A handler that does not touch the state.
  abbrev pub stateless : List Action → Step S
  stateless actions s = (s, done actions)

  -- ratelimit.Middleware.
  abbrev pub rate_limit : MiddlewareOptions → Request → Step S
  rate_limit options r s = (s, (middleware options r.now r.bucket).1)

module _ {F : Type 0} ⦃fl : Float64 F⦄ where
  -- Handle of the middleware of a breaker with no options.
  abbrev pub breaker : Env → Step (CircuitBreaker F)
  breaker env cb =
      ((handle env (new_middleware cb [])).0.breaker, done (handle env (new_middleware cb [])).1)

  -- The handlers that `h.Use` registers, in their order. The pool's only puts a client into the context.
  unfoldable pub global_middleware : Request → List (Step (CircuitBreaker F))
  global_middleware r =
      stateless (request_id r.headers r.generated).1
      ∷ stateless (security default_security_headers)
      ∷ stateless (cors default_cors_options r.origin r.method)
      ∷ rate_limit default_options r
      ∷ stateless (next ∷ [])
      ∷ breaker r.env
      ∷ []

  -- What the server does with a request: the chain of its engine, with the endpoint of the route.
  unfoldable pub handle_request :
      Chain (CircuitBreaker F) → Request → Step (CircuitBreaker F) → Step (CircuitBreaker F)
  unfolding global_middleware
  handle_request chain r endpoint = chain.recovered (global_middleware r ++ endpoint ∷ [])
