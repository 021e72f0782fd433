-- ===== src/LlmClient/Stream.antt =====
-- StreamChatCompletion of internal/handler/llm_client.go: one request inside a call of the breaker,
-- without retries. The encoder and the HTTP client are not part of the repository.
use gateway_a.Prelude.{
  ℕ, nat_eq, ℤ, Text, codes, Bool, true, Option, none, some, List, [], ◌++◌, if◌then◌else◌, ◌==◌,
  Float64, Error, message, wrapped, Result, ok, err,
}
use gateway_a.CircuitBreaker.{CircuitBreaker, Env, call}
use gateway_a.LlmClient.{ReadEnd, stream_loop}

pub record StreamOptions : Type 0 where
  pub include_usage : Bool

-- The request, with `M` for the decoded messages.
pub record ChatCompletionRequest (M : Type 0) : Type 0 where
  pub model : Text
  pub messages : M
  pub max_tokens : Option ℤ
  pub stream : Bool
  pub stream_options : Option StreamOptions

-- What `httpClient.Do` gives: the body of a response is read by `io.ReadAll`, or read by read.
pub data StreamReply : Type 0 where
  unsent : Error → StreamReply
  replied : (code : ℕ) (status whole_body : Text) (reads : List (Text × ReadEnd)) → StreamReply

-- The surroundings of one call: the encoder, the request built from its result, and the provider.
pub record StreamUpstream (M : Type 0) : Type 0 where
  pub marshal : ChatCompletionRequest M → Result Text
  pub build : Text → Result (Unit {0})
  pub send : Text → StreamReply

-- What a call has given to the callback; `none` is a body whose reads never end.
abbrev pub Forwarded : Type 0
Forwarded = Option (List Text)

-- The function inside the breaker gets nothing before it and leaves the chunks, beside its error.
abbrev pub loop_result : Option (List Text × Option Error) → Forwarded × Option Error
loop_result none = (none, none)
loop_result (some (chunks, e)) = (some chunks, e)

abbrev pub failed_with : Error → Forwarded × Option Error
failed_with e = (some [], some e)

abbrev pub judge_stream : StreamReply → Forwarded × Option Error
judge_stream (unsent e) = failed_with (wrapped (codes "failed to send request: ") e)
judge_stream (replied code status whole_body reads) =
    if code == 200
    then loop_result (stream_loop reads)
    else failed_with (message (codes "upstream error: " ++ (status ++ (codes " - " ++ whole_body))))

module _ {M : Type 0} where
  -- The copy of the request that is sent.
  unfoldable pub with_usage : ChatCompletionRequest M → ChatCompletionRequest M
  with_usage r =
      if r.stream then record r { stream_options = some (record { include_usage = true }) } else r

  abbrev pub after_build : StreamUpstream M → Text → Result (Unit {0}) → Forwarded × Option Error
  after_build u body (err e) = failed_with (wrapped (codes "failed to create request: ") e)
  after_build u body (ok _) = judge_stream (u.send body)

  abbrev pub after_marshal : StreamUpstream M → Result Text → Forwarded × Option Error
  after_marshal u (err e) = failed_with (wrapped (codes "failed to marshal request: ") e)
  after_marshal u (ok body) = after_build u body (u.build body)

  -- The function that StreamChatCompletion gives to the breaker.
  unfoldable pub stream_attempt :
      StreamUpstream M → ChatCompletionRequest M → Forwarded × Option Error
  unfolding with_usage stream_loop
  stream_attempt u r = after_marshal u (u.marshal (with_usage r))

-- What StreamChatCompletion returns: `none` where it does not, else the chunks that the callback got
-- and the error.
abbrev pub stream_result : Forwarded → Option Error → Option (List Text × Option Error)
stream_result none e = none
stream_result (some chunks) none = some (chunks, none)
stream_result (some chunks) (some e) =
    some (chunks, some (wrapped (codes "circuit breaker error: ") e))

module _ {F : Type 0} ⦃fl : Float64 F⦄ where
  abbrev pub stream_outcome :
      CircuitBreaker F × Forwarded × Option Error
      → Option (CircuitBreaker F × List Text × Option Error)
  stream_outcome (cb, forwarded, e) = elim (stream_result forwarded e) [
    | none ↦ none
    | some (chunks, result) ↦ some (cb, chunks, result)
  ]

  unfoldable pub stream_chat_completion :
      {M : Type 0}
      → Env
      → StreamUpstream M
      → ChatCompletionRequest M
      → CircuitBreaker F
      → Option (CircuitBreaker F × List Text × Option Error)
  unfolding stream_attempt
  stream_chat_completion env u r cb =
      stream_outcome (call (λ (s : Forwarded). stream_attempt u r) env cb (some []))
