-- ===== src/ConnectionPool/Retry.antt =====
-- What UpstreamCallWithRetry of middleware/connectionpool/middleware.go returns, and how long it
-- waits.
use gateway_a.Prelude.{
  ℕ, zero, suc, ◌+◌, ◌*◌, ◌<◌, ◌≤◌, Option, none, List, [], ◌∷◌, Error, Result, ok, err, ◌≡◌, ◌⊎◌,
  inl, inr, arith,
}
use mathlib.Core.Path.{subst}
use gateway_a.ConnectionPool.{retry_loop, upstream_call_with_retry}

-- n waits, each twice as long as the one before.
abbrev pub doubling : ℕ → ℕ → List ℕ
doubling zero backoff = []
doubling (suc n) backoff = backoff ∷ doubling n (backoff * 2)

module _ {R : Type 0} (call : ℕ → Result R) (done : ℕ → Option Error) where
  -- Attempt i failed, and its wait was not cut short.
  pub record Failed (i : ℕ) : Type 0 where
    pub error : Error
    pub failed : call i ≡ err error
    pub waited_out : done i ≡ none

  abbrev pub Succeeds : ℕ → Type 0
  Succeeds i = (r : R) × (call i ≡ ok r)

  retry_loop-doubling :
      (d left a n k backoff : ℕ)
      → a + left ≡ n
      → a + d ≡ k
      → k ≤ n
      → ((i : ℕ) → i < k → Failed i)
      → (k ≡ n) ⊎ Succeeds k
      → retry_loop call done left a backoff ≡ (call k, doubling d backoff)
  unfolding retry_loop
  retry_loop-doubling zero zero a n k backoff p q b h l =
      let e : k ≡ a = omega arith in rw e (ground arith)
  retry_loop-doubling zero (suc left) a n k backoff p q b h (inl last) = absurd (omega arith)
  retry_loop-doubling zero (suc left) a n k backoff p q b h (inr (r, s)) =
      let e : k ≡ a = omega arith in
      let succeeded : call a ≡ ok r = subst (λ i. call i ≡ ok r) e s in
      rw e (ground (arith, succeeded))
  retry_loop-doubling (suc d) zero a n k backoff p q b h l = absurd (omega arith)
  retry_loop-doubling (suc d) (suc left) a n k backoff p q b h l =
      let f = h a (omega arith) in
      let rest =
        retry_loop-doubling d left (a + 1) n k (backoff * 2) (omega arith) (omega arith) b h l in
      ground (arith, f.failed, f.waited_out, rest)

  -- The result is that of the first attempt that succeeds, or of attempt `max_retries` at the
  -- latest, if no wait is cut short; each wait is twice as long as the one before.
  pub upstream_call_with_retry-doubling :
      (max_retries k backoff : ℕ)
      → k ≤ max_retries
      → ((i : ℕ) → i < k → Failed i)
      → (k ≡ max_retries) ⊎ Succeeds k
      → upstream_call_with_retry call done max_retries backoff ≡ (call k, doubling k backoff)
  unfolding upstream_call_with_retry
  upstream_call_with_retry-doubling n k backoff b h l =
      retry_loop-doubling k n 0 n k backoff (omega arith) (omega arith) b h l
