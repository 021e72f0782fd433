-- ===== src/Server/Requests.antt =====
-- Which requests get through the global middleware of internal/server/server.go.
use gateway_a.Prelude.{
  text_eq, Text, codes, false, List, [], ◌∷◌, ◌++◌, ◌≡◌, ◌≢◌, refl, ap, ◌∙◌, arith, Float64,
}
use gateway_a.Http.{Action, next, abort, set_status}
use gateway_a.CircuitBreaker.{CircuitBreaker}
use gateway_a.RateLimit.{Outcome, done, panicked, check}
use gateway_a.RateLimit.Middleware.{default_options, middleware, middleware_with_redis}
use gateway_a.RequestId.{middleware as request_id}
use gateway_a.Security.{security, default_security_headers, cors, default_cors_options}
use gateway_a.Server.Chain.{
  Step, Chain, Documented, Request, aborts, after, stateless, rate_limit, breaker,
  global_middleware, handle_request,
}

-- Where the limiter has no client, its handler panics.
rate_limit-panics : (r : Request) → (middleware default_options r.now r.bucket).1 ≡ panicked
unfolding middleware middleware_with_redis check
rate_limit-panics r = refl

request_id-goes_on : (r : Request) → aborts (request_id r.headers r.generated).1 ≡ false
unfolding request_id
request_id-goes_on r = refl

security-goes_on : aborts (security default_security_headers) ≡ false
unfolding security
security-goes_on = refl

cors-goes_on :
    (origin method : Text)
    → method ≢ codes "OPTIONS"
    → aborts (cors default_cors_options origin method) ≡ false
unfolding cors
cors-goes_on origin method h = ground (arith, h, text_eq.beq_iff method (codes "OPTIONS"))

module _ {S : Type 0} (chain : Chain S) (documented : Documented chain) where
  goes_on :
      (actions : List Action) (hs : List (Step S)) (s : S) (x : S × Outcome (List Action))
      → aborts actions ≡ false
      → chain.run hs s ≡ x
      → chain.run (stateless actions ∷ hs) s ≡ after actions x
  goes_on actions hs s x h e =
      documented.on_return (stateless actions) hs s s actions refl h ∙ ap (after actions) e

module _ {F : Type 0} ⦃fl : Float64 F⦄ (chain : Chain (CircuitBreaker F))
    (documented : Documented chain) where
  -- The chain of every request but a preflight ends in a panic of the rate limiter.
  global_middleware-panics :
      (r : Request) (endpoint : Step (CircuitBreaker F)) (cb : CircuitBreaker F)
      → r.method ≢ codes "OPTIONS"
      → chain.run (global_middleware r ++ endpoint ∷ []) cb ≡ (cb, panicked)
  unfolding global_middleware
  global_middleware-panics r endpoint cb h =
      let behind = stateless (next ∷ []) ∷ breaker r.env ∷ endpoint ∷ [] in
      let limited = rate_limit default_options r ∷ behind in
      let past_security = stateless (cors default_cors_options r.origin r.method) ∷ limited in
      goes_on chain documented _ (stateless (security default_security_headers) ∷ past_security) cb
        _ (request_id-goes_on r)
        (goes_on chain documented _ past_security cb _ security-goes_on (
          goes_on chain documented _ limited cb _ (cors-goes_on r.origin r.method h) (
            documented.on_panic (rate_limit default_options r) behind cb cb
              (ap (λ o. (cb, o)) (rate_limit-panics r)))))

  -- Every request but a preflight is answered with the status 500, whatever the endpoint is: the rate
  -- limiter, which NewServer gives no client, panics before the breaker and the endpoint are reached, so
  -- that the breaker stays as it is, and Recovery turns the panic into the answer.
  pub handle_request_500 :
      (r : Request) (endpoint : Step (CircuitBreaker F)) (cb : CircuitBreaker F)
      → r.method ≢ codes "OPTIONS"
      → (chain.run (global_middleware r ++ endpoint ∷ []) cb ≡ (cb, panicked))
        × ((before : List Action) × (handle_request chain r endpoint cb
              ≡ (cb, done (before ++ set_status 500 ∷ abort ∷ []))))
  unfolding handle_request
  handle_request_500 r endpoint cb h =
      let panic = global_middleware-panics r endpoint cb h in
      (panic, documented.on_recovery (global_middleware r ++ endpoint ∷ []) cb cb panic)
