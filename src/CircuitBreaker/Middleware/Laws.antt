-- ===== src/CircuitBreaker/Middleware/Laws.antt =====
-- What the handlers of middleware/circuitbreaker/middleware.go do with a request.
use gateway_a.Prelude.{
  Error, is_circuit_open, Option, none, some, List, [], ◌∷◌, ◌≡◌, refl, ◌∙◌, ap, Float64, arith,
  All,
}
use gateway_a.Http.{next}
use gateway_a.CircuitBreaker.{CircuitBreaker, Env, call, closed, opened, get_state}
use gateway_a.CircuitBreaker.Transitions.{allow_request-opened}
use gateway_a.CircuitBreaker.Runs.{call-direct}
use gateway_a.CircuitBreaker.Middleware.{
  CircuitBreakerMiddleware, nothing, respond, unavailable, handle, chain,
}

-- The error with which a context that ends during the request fails it.
abbrev pub context_error : Env → Option Error
context_error env = elim env.err_before [ some e ↦ some e | none ↦ env.err_after ]

module _ {F : Type 0} ⦃fl : Float64 F⦄ where
  call-nothing :
      (env : Env) (cb : CircuitBreaker F)
      → get_state cb ≡ closed
      → (call nothing env cb tt).2 ≡ context_error env
  call-nothing env cb h = (call-direct nothing env cb tt h).1 ∙ ground arith

  -- With a closed breaker the middleware lets a request through where its context is not done, and
  -- otherwise answers with the error of the context.
  pub handle-closed :
      (env : Env) (mw : CircuitBreakerMiddleware F)
      → get_state mw.breaker ≡ closed
      → (handle env mw).1 ≡ respond next mw (context_error env)
  unfolding handle
  handle-closed env mw h = ap (respond next mw) (call-nothing env mw.breaker h)

  -- With an opened breaker every request is answered by 503 and goes no further.
  pub handle-opened :
      (env : Env) (mw : CircuitBreakerMiddleware F)
      → get_state mw.breaker ≡ opened
      → (handle env mw).1 ≡ unavailable mw.upstream_url
  unfolding handle call is_circuit_open
  handle-opened env mw h = rw (allow_request-opened env.allow_time mw.breaker h) refl

  abbrev AllLive : List (Env × CircuitBreaker F) → Type 0
  AllLive = All (λ p. (get_state p.1 ≡ closed) × (context_error p.0 ≡ none))

  -- A chain of closed breakers over a live context lets the request through.
  pub chain-closed : (cbs : List (Env × CircuitBreaker F)) → AllLive cbs → (chain cbs).1 ≡ next ∷ []
  unfolding chain
  chain-closed [] h = refl
  chain-closed ((env, cb) ∷ rest) ((state, live), h) =
      rw (call-nothing env cb state ∙ live, chain) (chain-closed rest h)
