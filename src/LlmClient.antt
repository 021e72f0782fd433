-- ===== src/LlmClient.antt =====
-- internal/handler/llm_client.go: the client of the upstream provider, with its retries inside one
-- call of the circuit breaker, and what the handlers of internal/handler/llm.go make of its result.
-- The HTTP client, the JSON encoder and decoder (`R` is the decoded response) and the clock are not
-- part of the repository: a request says how each attempt ends.
pub mod Retries
pub mod Stream
pub mod Streaming
mod Tests
use gateway_a.Prelude.{
  ℕ, zero, suc, ◌+◌, ◌-◌, ◌*◌, ◌^◌, ℤ, pos, ◌*ℤ◌, negsuc, to_int64, ltb, leb, length, Text, codes,
  text_contains, Bool, true, false, not, ◌&&◌, ◌||◌, Option, none, some, List, [], ◌∷◌, ◌++◌,
  if◌then◌else◌, Float64, Error, message, upstream, wrapped, error_text, Result, ok, err, String,
  ◌==◌, nat_eq,
}
use gateway_a.Http.{Action, json, text}
use gateway_a.CircuitBreaker.{CircuitBreaker, Env, call}

-- What `httpClient.Do` gives, with the body as `io.ReadAll` or the decoder sees it.
pub data Reply (R : Type 0) : Type 0 where
  transport_error : Error → Reply R
  response : (status_code : ℕ) (status body : Text) (decoded : Result R) → Reply R

-- One ChatCompletion call's surroundings: the encoded request, the HTTP request built from it, the
-- reply to each attempt, and what ends the wait before an attempt early.
pub record Upstream (R : Type 0) : Type 0 where
  pub marshalled : Result Text
  pub built : Result (Unit {0})
  pub reply : ℕ → Reply R
  pub interrupted : ℕ → Option Error

-- isTransientError, on an error that is not nil.
unfoldable pub is_transient_error : Error → Bool
is_transient_error e =
    let s = error_text e in
    text_contains s (codes "timeout")
    || (text_contains s (codes "connection") || text_contains s (codes "EOF"))

unfoldable pub is_retryable_status_code : ℕ → Bool
is_retryable_status_code status = leb 500 status && leb status 599

-- How an attempt ends: with a result, or with an error after which another attempt may follow.
pub data Verdict (R : Type 0) : Type 0 where
  stop : Result R → Verdict R
  retry : Error → Verdict R

-- What happened during the attempts.
pub data Event : Type 0 where
  -- the backoff in nanoseconds
  waited : ℤ → Event
  sent : (attempt : ℕ) → Event

abbrev prefixed : {R : Type 0} → Text → Result R → Result R
prefixed prefix (ok r) = ok r
prefixed prefix (err e) = err (wrapped prefix e)

-- time.Duration(100 << uint(attempt-1)) * time.Millisecond
backoff : ℕ → ℤ
backoff attempt = to_int64 (to_int64 (pos (100 * 2 ^ (attempt - 1))) *ℤ pos 1000000)

module _ {R : Type 0} where
  -- From the reply to one attempt.
  unfoldable pub judge_reply : Reply R → Verdict R
  unfolding is_transient_error is_retryable_status_code
  judge_reply (transport_error e) =
      let last = wrapped (codes "failed to send request: ") e in
      if is_transient_error last then retry last else stop (err last)
  judge_reply (response status_code status body decoded) =
      if not (status_code == 200)
      then if leb 400 status_code && ltb status_code 500
        then stop (err (upstream status_code body))
        else (let last = message (codes "upstream error: " ++ (status ++ (codes " - " ++ body))) in
            if is_retryable_status_code status_code then retry last else stop (err last))
      else stop (prefixed (codes "failed to parse response: ") decoded)

  -- One attempt: encode, build, send.
  unfoldable pub judge : Upstream R → ℕ → Verdict R × List Event
  judge u attempt = elim u.marshalled [
    | err e ↦ (stop (err (wrapped (codes "failed to marshal request: ") e)), [])
    | ok body ↦ elim u.built [
      | err e ↦ (stop (err (wrapped (codes "failed to create request: ") e)), [])
      | ok _ ↦ (judge_reply (u.reply attempt), sent attempt ∷ [])
    ]
  ]

  abbrev after : List Event → Result R × List Event → Result R × List Event
  after events (r, later) = (r, events ++ later)

  -- The loop of ChatCompletion from an attempt on, with `left` attempts behind it; the error of the
  -- last attempt is returned even where another attempt could have followed.
  attempt_loop : Upstream R → ℕ → ℕ → Result R × List Event
  attempt_loop u zero attempt = elim (judge u attempt).0 [
    | stop r ↦ (r, (judge u attempt).1)
    | retry e ↦ (err e, (judge u attempt).1)
  ]
  attempt_loop u (suc left) attempt = elim (judge u attempt).0 [
    | stop r ↦ (r, (judge u attempt).1)
    | retry e ↦
        let pause = (judge u attempt).1 ++ waited (backoff (attempt + 1)) ∷ [] in
        elim (u.interrupted (attempt + 1)) [
          | some d ↦ (err d, pause)
          | none ↦ after pause (attempt_loop u left (attempt + 1))
        ]
  ]

  -- The function that ChatCompletion gives to the breaker, for a client of `more` + 1 attempts.
  unfoldable pub attempts : ℕ → Upstream R → Result R × List Event
  unfolding attempt_loop backoff
  attempts more u = attempt_loop u more 0

-- The number of attempts that NewLLMClient sets, less one: there is at least one attempt.
unfoldable pub retries_of : ℤ → ℕ
retries_of (pos zero) = 0
retries_of (pos (suc n)) = n
retries_of (negsuc n) = 0

-- What the function leaves for its caller: `result` and the events, beside its error.
abbrev pub error_of : {R : Type 0} → Result R → Option Error
error_of (ok r) = none
error_of (err e) = some e

abbrev pub value_of : {R : Type 0} → Result R → Option R
value_of (ok r) = some r
value_of (err e) = none

abbrev pub run_attempts :
    {R : Type 0} → ℕ → Upstream R → Option R × List Event → (Option R × List Event) × Option Error
run_attempts n u s = let (r, events) = attempts n u in ((value_of r, events), error_of r)

module _ {F : Type 0} ⦃fl : Float64 F⦄ {R : Type 0} where
  abbrev finish :
      CircuitBreaker F × (Option R × List Event) × Option Error
      → CircuitBreaker F × Result (Option R) × List Event
  finish (cb, (result, events), some e) =
      (cb, err (wrapped (codes "circuit breaker error: ") e), events)
  finish (cb, (result, events), none) = (cb, ok result, events)

  -- ChatCompletion of a client with n + 1 attempts.
  unfoldable pub chat_completion :
      ℕ → Env → Upstream R → CircuitBreaker F → CircuitBreaker F × Result (Option R) × List Event
  chat_completion n env u cb = finish (call (run_attempts n u) env cb (none, []))

-- The type assertion `err.(*UpstreamError)`, which does not unwrap.
abbrev as_upstream : Error → Option (ℕ × Text)
as_upstream (upstream status m) = some (status, m)
as_upstream _ = none

-- The answer of nonStreamChatCompletion to an error of the client.
unfoldable pub error_response : Error → Action
error_response e = elim (as_upstream e) [
  | some (status, m) ↦ json status (("error", text m) ∷ [])
  | none ↦ json 502 (("error", text (error_text e)) ∷ [])
]

-- How one `resp.Body.Read` ends, beside the bytes that it delivers.
pub data ReadEnd : Type 0 where
  -- a nil error, and io.EOF
  more eof : ReadEnd
  broken : Error → ReadEnd

-- The loop of StreamChatCompletion: the chunks given to the callback, and the error at the end.
-- `none` is a body whose reads never end.
unfoldable pub stream_loop : List (Text × ReadEnd) → Option (List Text × Option Error)
stream_loop [] = none
stream_loop ((chunk, eof) ∷ reads) = some ([], none)
stream_loop ((chunk, broken e) ∷ reads) =
    some ([], some (wrapped (codes "failed to read response: ") e))
stream_loop ((chunk, more) ∷ reads) = elim (stream_loop reads) [
  | none ↦ none
  | some (chunks, result) ↦ some (if ltb 0 (length chunk) then chunk ∷ chunks else chunks, result)
]
