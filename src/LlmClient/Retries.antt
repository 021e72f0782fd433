-- ===== src/LlmClient/Retries.antt =====
-- The retries of ChatCompletion in internal/handler/llm_client.go, and the errors that reach the
-- handler.
use mathlib.Core.Path.{subst}
use gateway_a.Prelude.{
  ℕ, zero, suc, ◌+◌, ◌≤◌, ◌<◌, Text, codes, true, Option, none, some, List, [], ◌∷◌, ◌++◌, ◌≡◌,
  refl, arith, Float64, Error, wrapped, error_text, Result, ok, err, inl, inr, ◌⊎◌,
}
use gateway_a.Http.{json, text}
use gateway_a.CircuitBreaker.{CircuitBreaker, Env, call, closed, get_state}
use gateway_a.CircuitBreaker.Runs.{call-direct}
use gateway_a.LlmClient.{
  Reply, transport_error, response, Upstream, Verdict, stop, retry, Event, waited, sent,
  judge_reply, judge, attempt_loop, attempts, backoff, run_attempts, is_transient_error,
  chat_completion, error_response, finish,
}

-- The requests among the events.
abbrev pub count_sent : List Event → ℕ
count_sent [] = 0
count_sent (waited d ∷ es) = count_sent es
count_sent (sent a ∷ es) = suc (count_sent es)

count_sent-append : (xs ys : List Event) → count_sent (xs ++ ys) ≡ count_sent xs + count_sent ys
count_sent-append [] ys = omega arith
count_sent-append (waited d ∷ xs) ys = count_sent-append xs ys
count_sent-append (sent a ∷ xs) ys = omega (arith, count_sent-append xs ys)

module _ {R : Type 0} where
  -- Attempt i failed in a way that another attempt may follow, and its wait was not cut short.
  pub record Retried (u : Upstream R) (i : ℕ) : Type 0 where
    pub error : Error
    pub verdict : (judge u i).0 ≡ retry error
    pub waited_out : u.interrupted (i + 1) ≡ none

  count_sent-judge : (u : Upstream R) (i : ℕ) → count_sent (judge u i).1 ≤ 1
  unfolding judge
  count_sent-judge u i = ground arith

  attempt_loop-count_sent :
      (u : Upstream R) (left attempt : ℕ) → count_sent (attempt_loop u left attempt).1 ≤ suc left
  unfolding attempt_loop
  attempt_loop-count_sent u zero attempt = ground (arith, count_sent-judge u attempt)
  attempt_loop-count_sent u (suc left) attempt =
      let pause = waited (backoff (attempt + 1)) ∷ [] in
      let rest = (attempt_loop u left (attempt + 1)).1 in
      ground (
        arith,
        count_sent-judge u attempt,
        attempt_loop-count_sent u left (attempt + 1),
        count_sent-append (judge u attempt).1 pause,
        count_sent-append ((judge u attempt).1 ++ pause) rest,
      )

  -- What an attempt gives where it is the last one.
  abbrev pub final : Verdict R → Result R
  final (stop r) = r
  final (retry e) = err e

  -- Whether no attempt follows attempt i, of n + 1.
  abbrev pub IsLast : Upstream R → ℕ → ℕ → Type 0
  IsLast u n i = (i ≡ n) ⊎ ((r : Result R) × ((judge u i).0 ≡ stop r))

  attempt_loop-final :
      (u : Upstream R) (d left a n k : ℕ)
      → a + left ≡ n
      → a + d ≡ k
      → k ≤ n
      → ((i : ℕ) → i < k → Retried u i)
      → IsLast u n k
      → (attempt_loop u left a).0 ≡ final (judge u k).0
  unfolding attempt_loop
  attempt_loop-final u d zero a n k p q b h l = let e : k ≡ a = omega arith in rw e (ground arith)
  attempt_loop-final u zero (suc left) a n k p q b h (inl last) = absurd (omega arith)
  attempt_loop-final u zero (suc left) a n k p q b h (inr (r, s)) =
      let e : k ≡ a = omega arith in
      let stopped : (judge u a).0 ≡ stop r = subst (λ i. (judge u i).0 ≡ stop r) e s in
      rw e (ground (arith, stopped))
  attempt_loop-final u (suc d) (suc left) a n k p q b h l =
      let retried = h a (omega arith) in
      ground (
        arith,
        retried.verdict,
        retried.waited_out,
        attempt_loop-final u d left (a + 1) n k (omega arith) (omega arith) b h l,
      )

  -- Where the context ends none of the waits behind the attempts before it, the result is that of the
  -- first attempt that is not retried, the last attempt at the latest.
  pub attempts-final :
      (u : Upstream R) (more k : ℕ)
      → k ≤ more
      → ((i : ℕ) → i < k → Retried u i)
      → IsLast u more k
      → (attempts more u).0 ≡ final (judge u k).0
  unfolding attempts
  attempts-final u more k b h l =
      attempt_loop-final u k more 0 more k (omega arith) (omega arith) b h l

  -- A client of n + 1 attempts sends at most n + 1 requests.
  pub attempts-count_sent : (more : ℕ) (u : Upstream R) → count_sent (attempts more u).1 ≤ more + 1
  unfolding attempts
  attempts-count_sent more u = omega (arith, attempt_loop-count_sent u more 0)

  -- Another attempt may follow only an error of the transport that counts as transient, or a 5xx
  -- status; a 4xx status always ends the attempts.
  pub judge_reply-retry :
      (reply : Reply R) {e : Error}
      → judge_reply reply ≡ retry e
      → ((t : Error) × (reply ≡ transport_error t)
          × (is_transient_error (wrapped (codes "failed to send request: ") t) ≡ true))
        ⊎ ((code : ℕ) × (status : Text) × (body : Text) × (decoded : Result R) × (reply
              ≡ response code status body decoded)
            × (500 ≤ code)
            × (code ≤ 599))
  unfolding judge_reply
  judge_reply-retry (transport_error t) h = inl (t, refl, ground arith)
  judge_reply-retry (response code status body decoded) h =
      inr (code, status, body, decoded, refl, ground arith, ground arith)

module _ {F : Type 0} ⦃fl : Float64 F⦄ {R : Type 0} where
  finish-error_response :
      (p : CircuitBreaker F × (Option R × List Event) × Option Error) {e : Error}
      → (finish p).1 ≡ err e
      → error_response e ≡ json 502 (("error", text (error_text e)) ∷ [])
  unfolding error_response
  finish-error_response (cb, (result, events), some x) h = ground arith
  finish-error_response (cb, (result, events), none) h = cc

  -- Whatever error the client returns, the handler answers 502 with its text.
  pub chat_completion-error_response :
      (n : ℕ) (env : Env) (u : Upstream R) (cb : CircuitBreaker F) {e : Error}
      → (chat_completion n env u cb).1 ≡ err e
      → error_response e ≡ json 502 (("error", text (error_text e)) ∷ [])
  unfolding chat_completion error_response
  chat_completion-error_response n env u cb h =
      finish-error_response (call (run_attempts n u) env cb (none, [])) h

  -- Through a closed breaker, and in a context that is never done, the client returns what the
  -- attempts return, with the breaker's prefix on an error, after the same requests and waits.
  pub chat_completion-closed :
      (n : ℕ) (env : Env) (u : Upstream R) (cb : CircuitBreaker F)
      → get_state cb ≡ closed
      → env.err_before ≡ none
      → env.err_after ≡ none
      → ((chat_completion n env u cb).1 ≡ elim (attempts n u).0 [
        | ok r ↦ ok (some r)
        | err e ↦ err (wrapped (codes "circuit breaker error: ") e)
      ])
        × ((chat_completion n env u cb).2 ≡ (attempts n u).1)
  unfolding chat_completion
  chat_completion-closed n env u cb h p q =
      ground (arith, call-direct (run_attempts n u) env cb (none, []) h)
