-- ===== src/CircuitBreaker/Middleware.antt =====
-- middleware/circuitbreaker/middleware.go: the breaker as a Hertz middleware. Each of its three
-- handlers runs `Call` on a function that does nothing, and goes on to the request afterwards.
pub mod Laws
use gateway_a.Prelude.{
  ℕ, ℤ, pos, Text, codes, Error, error_text, is_circuit_open, Bool, true, false, Option, none, some,
  List, [], ◌∷◌, ◌++◌, if◌then◌else◌, Float64,
}
use gateway_a.Http.{Action, header, json, next, fallback, text, number}
use gateway_a.CircuitBreaker.{CircuitBreaker, Env, call}

pub record CircuitBreakerMiddleware (F : Type 0) : Type 0 where
  pub breaker : CircuitBreaker F
  -- whether a fallback function is set
  pub fallback : Bool
  pub upstream_url : Text

-- WithFallback and WithUpstreamURL.
pub data MiddlewareOption : Type 0 where
  with_fallback : (set : Bool) → MiddlewareOption
  with_upstream_url : Text → MiddlewareOption

-- The function that each handler passes to `Call`: `return nil`.
abbrev pub nothing : Unit {0} → Unit {0} × Option Error
nothing u = (u, none)

abbrev pub unavailable : Text → List Action
unavailable url =
    header "Content-Type" (codes "application/json")
    ∷ header "Retry-After" (codes "30")
    ∷ json 503 (
        ("error", text (codes "service temporarily unavailable"))
        ∷ ("reason", text (codes "upstream circuit breaker is open"))
        ∷ ("upstream", text url)
        ∷ [])
    ∷ []

abbrev internal_error : Error → Action
internal_error e =
    json 500
      (("error", text (codes "internal server error")) ∷ ("reason", text (error_text e)) ∷ [])

abbrev chain_failure : Error → List Action
chain_failure e =
    if is_circuit_open e
    then json 503 (
        ("error", text (codes "service temporarily unavailable"))
        ∷ ("reason", text (codes "circuit breaker is open"))
        ∷ [])
      ∷ []
    else json 500 (("error", text (codes "internal server error")) ∷ []) ∷ []

module _ {F : Type 0} where
  apply_option : MiddlewareOption → CircuitBreakerMiddleware F → CircuitBreakerMiddleware F
  apply_option (with_fallback set) mw = record mw { fallback = set }
  apply_option (with_upstream_url url) mw = record mw { upstream_url = url }

  apply_options : List MiddlewareOption → CircuitBreakerMiddleware F → CircuitBreakerMiddleware F
  apply_options [] mw = mw
  apply_options (o ∷ os) mw = apply_options os (apply_option o mw)

  unfoldable pub new_middleware :
      CircuitBreaker F → List MiddlewareOption → CircuitBreakerMiddleware F
  unfolding apply_options apply_option
  new_middleware breaker opts =
      apply_options opts (record { breaker = breaker; fallback = false; upstream_url = [] })

  -- The breakers that a failing chain does not reach.
  abbrev untouched : List (Env × CircuitBreaker F) → List (CircuitBreaker F)
  untouched [] = []
  untouched ((env, cb) ∷ rest) = cb ∷ untouched rest

  abbrev cons_first :
      CircuitBreaker F
      → List (CircuitBreaker F) × List Action
      → List (CircuitBreaker F) × List Action
  cons_first cb (cbs, actions) = (cb ∷ cbs, actions)

  -- What the handler does with the result of `Call`; `go_on` is what follows a success.
  abbrev pub respond : Action → CircuitBreakerMiddleware F → Option Error → List Action
  respond go_on mw none = go_on ∷ []
  respond go_on mw (some e) =
      if is_circuit_open e
      then unavailable mw.upstream_url
      else if mw.fallback
      then fallback e ∷ []
      else internal_error e ∷ []

module _ {F : Type 0} ⦃fl : Float64 F⦄ where
  -- `Handle`.
  unfoldable pub handle :
      Env → CircuitBreakerMiddleware F → CircuitBreakerMiddleware F × List Action
  handle env mw =
      let (cb, _, err) = call nothing env mw.breaker tt in
      (record mw { breaker = cb }, respond next mw err)

  -- `WrapHandler`; `handler` stands for the call of the wrapped handler.
  unfoldable pub wrap_handler :
      Action → Env → CircuitBreakerMiddleware F → CircuitBreakerMiddleware F × List Action
  wrap_handler handler env mw =
      let (cb, _, err) = call nothing env mw.breaker tt in
      (record mw { breaker = cb }, respond handler mw err)

  -- `CircuitBreakerChain`: the breakers are called in turn, each with its own readings of the
  -- clock, up to the first that fails.
  unfoldable pub chain : List (Env × CircuitBreaker F) → List (CircuitBreaker F) × List Action
  chain [] = ([], next ∷ [])
  chain ((env, cb) ∷ rest) =
      let (cb', _, err) = call nothing env cb tt in
      elim err [
        | some e ↦ (cb' ∷ untouched rest, chain_failure e)
        | none ↦ cons_first cb' (chain rest)
      ]

-- FallbackResponse.
abbrev pub fallback_response : List Action
fallback_response =
    header "Content-Type" (codes "application/json")
    ∷ header "Retry-After" (codes "30")
    ∷ json 503 (
        ("error", text (codes "service temporarily unavailable"))
        ∷ ("retry_after", number (pos 30))
        ∷ [])
    ∷ []
