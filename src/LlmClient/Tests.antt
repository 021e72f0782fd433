-- ===== src/LlmClient/Tests.antt =====
-- The theorems on the client of the provider at concrete replies.
use gateway_a.Prelude.{
  ℕ, ◌<◌, ℤ, pos, none, some, Error, message, upstream, wrapped, codes, arith, ◌≡◌, ◌∙◌, refl, inr,
  ok, err, zero, suc,
}
use gateway_a.Samples.{whole}
use gateway_a.CircuitBreaker.{Env, new, Config, get_state, closed}
use gateway_a.LlmClient.{
  Reply, response, Upstream, judge_reply, judge, attempts, chat_completion,
  is_retryable_status_code,
}
use gateway_a.LlmClient.Retries.{Retried, final, attempts-final, chat_completion-closed}

-- A provider that is overloaded once and then answers 7.
abbrev overloaded : Reply ℕ
overloaded = response 503 (codes "503") (codes "busy") (ok 0)

abbrev replies : ℕ → Reply ℕ
replies zero = overloaded
replies (suc n) = response 200 (codes "200 OK") (codes "7") (ok 7)

abbrev provider : Upstream ℕ
provider = record {
  marshalled = ok (codes "{}");
  built = ok tt;
  reply = replies;
  interrupted = λ i. none;
}

-- A provider that knows no such model.
abbrev unknown_model : Upstream ℕ
unknown_model = record {
  marshalled = ok (codes "{}");
  built = ok tt;
  reply = λ i. response 404 (codes "404") (codes "no model") (ok 0);
  interrupted = λ i. none;
}

abbrev live : Env
live = record {
  allow_time = pos 10;
  record_time = pos 20;
  reset_time = pos 30;
  err_before = none;
  err_after = none;
}

abbrev config : Config ℤ
config = record {
  failure_threshold = pos 50;
  reset_timeout = pos 30000000000;
  half_open_max_requests = pos 3;
  timeout = pos 30000000000;
}

was_overloaded : (i : ℕ) → i < 1 → Retried provider i
was_overloaded zero h = record {
  error = message (codes "upstream error: 503 - busy");
  verdict = unfold judge in unfold judge_reply in unfold is_retryable_status_code in refl;
  waited_out = refl;
}
was_overloaded (suc i) h = absurd (omega arith)

attempts-final_example : (attempts 2 provider).0 ≡ final (judge provider 1).0
attempts-final_example =
    attempts-final provider 2 1 (omega arith) was_overloaded
      (inr (ok 7, unfold judge in unfold judge_reply in refl))

new_closed : get_state (new config) ≡ closed
unfolding get_state new
new_closed = refl

abbrev not_found : Error
not_found = wrapped (codes "circuit breaker error: ") (upstream 404 (codes "no model"))

chat_completion-not_found : (chat_completion 2 live unknown_model (new config)).1 ≡ err not_found
chat_completion-not_found =
    (chat_completion-closed 2 live unknown_model (new config) new_closed refl refl).0
    ∙ (unfold attempts in unfold judge in unfold judge_reply in refl)

chat_completion-closed_example :
    ((chat_completion 2 live provider (new config)).1 ≡ elim (attempts 2 provider).0 [
      | ok r ↦ ok (some r)
      | err e ↦ err (wrapped (codes "circuit breaker error: ") e)
    ])
    × ((chat_completion 2 live provider (new config)).2 ≡ (attempts 2 provider).1)
chat_completion-closed_example =
    chat_completion-closed 2 live provider (new config) (new_closed) refl refl
