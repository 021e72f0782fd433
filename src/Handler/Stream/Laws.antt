-- ===== src/Handler/Stream/Laws.antt =====
-- The answers of streamChatCompletion of internal/handler/llm.go.
use gateway_a.Prelude.{
  ℕ, nat_eq, ltb, pos, Text, none, some, List, [], ◌∷◌, ◌++◌, map, select, length, ◌≡◌, ◌≢◌, refl,
  ap, ◌∙◌, arith, Float64, ok,
}
use gateway_a.CircuitBreaker.{CircuitBreaker, Env, call, closed, get_state}
use gateway_a.CircuitBreaker.Runs.{call-direct}
use gateway_a.LlmClient.{ReadEnd, more, eof}
use gateway_a.LlmClient.Streaming.{stream_loop-Ends}
use gateway_a.LlmClient.Stream.{
  ChatCompletionRequest, StreamUpstream, replied, Forwarded, with_usage, after_build, after_marshal,
  judge_stream, stream_attempt, loop_result, stream_chat_completion,
}
use gateway_a.Tokenizer.{Tokenizer, initial_tokenizer, default_config}
use gateway_a.Tokenizer.Termination.{estimate_tokens-initial}
use gateway_a.Usage.{Usage}
use gateway_a.Handler.Guards.{ChatRequest}
use gateway_a.Handler.Stream.{
  Decoder, Wire, stream_headers, events, buffer, extract_usage, forwarded_request, with_breaker,
  answer_stream, usage_or_estimate, recorded_answer, stream,
}

-- The chunks that are not empty.
abbrev pub nonempty : List Text → List Text
nonempty = select (λ c. ltb 0 (length c))

-- The request is sent, and answered with status 200 and a body that delivers the chunks and ends.
pub record Delivers {M : Type 0} (u : StreamUpstream M) (r : ChatCompletionRequest M)
    (chunks : List Text) : Type 0 where
  pub body : Text
  pub marshalled : u.marshal (with_usage r) ≡ ok body
  pub built : u.build body ≡ ok tt
  pub status : Text
  pub whole_body : Text
  pub last : Text
  pub rest : List (Text × ReadEnd)
  pub sent :
      u.send body
      ≡ replied 200 status whole_body (map (λ c. (c, more)) chunks ++ (last, eof) ∷ rest)

stream_attempt-Delivers :
    {M : Type 0} (u : StreamUpstream M) (r : ChatCompletionRequest M) (chunks : List Text)
    → Delivers u r chunks
    → stream_attempt u r ≡ (some (nonempty chunks), none)
unfolding stream_attempt
stream_attempt-Delivers u r chunks d =
    ap (after_marshal u) d.marshalled
    ∙ ap (after_build u d.body) d.built
    ∙ ap judge_stream d.sent
    ∙ ap loop_result (stream_loop-Ends chunks d.last eof d.rest tt)

module _ {F : Type 0} ⦃fl : Float64 F⦄ {M : Type 0} where
  -- Through a closed breaker the chunks reach the callback.
  stream_chat_completion-Delivers :
      (env : Env) (u : StreamUpstream M) (r : ChatCompletionRequest M) (cb : CircuitBreaker F)
      (chunks : List Text)
      → get_state cb ≡ closed
      → env.err_before ≡ none
      → env.err_after ≡ none
      → Delivers u r chunks
      → (cb' : CircuitBreaker F) × (stream_chat_completion env u r cb
          ≡ some (cb', nonempty chunks, none))
  unfolding stream_chat_completion
  stream_chat_completion-Delivers env u r cb chunks h p q d =
      let fn = λ (s : Forwarded). stream_attempt u r in
      let direct = call-direct fn env cb (some []) h in
      let attempt = stream_attempt-Delivers u r chunks d in
      ((call fn env cb (some [])).0, ground (arith, direct, attempt, p, q))

module _ {F : Type 0} ⦃fl : Float64 F⦄ where
  recorded_answer-usage :
      (fuel : ℕ) (t : Tokenizer F) (tenant : ℕ) (r : ChatRequest) (wire : List Wire) (output : Text)
      (u : Usage)
      → u.total_tokens ≢ pos 0
      → recorded_answer tenant r wire (usage_or_estimate fuel t r output u)
        ≡ some (record { wire = wire; recorded = some (tenant, (r.model, u)) })
  recorded_answer-usage fuel t tenant r wire output u h = ground (arith, h)

  usage_or_estimate-initial :
      (fuel : ℕ) (t : Tokenizer F) (r : ChatRequest) (output : Text) (u : Usage)
      → t ≡ initial_tokenizer
      → u.total_tokens ≡ pos 0
      → usage_or_estimate fuel t r output u ≡ none
  usage_or_estimate-initial fuel t r output u initial h =
      let never = estimate_tokens-initial {F = F} fuel r.messages r.model default_config in
      rw initial (ground (arith, h, never))

module _ {F : Type 0} ⦃fl : Float64 F⦄ {M : Type 0} where
  -- A stream with a usage ends: through a closed breaker, and in a context that is never done, the
  -- client gets the headers and an event for every chunk that is not empty, and the usage recorded is
  -- the one that the chunks hold, where it is not of no tokens.
  pub stream-usage :
      (fuel : ℕ) (t : Tokenizer F) (decoder : Decoder) (parse : Text → M) (tenant : ℕ)
      (r : ChatRequest) (env : Env) (u : StreamUpstream M) (cb : CircuitBreaker F)
      (chunks : List Text)
      → get_state cb ≡ closed
      → env.err_before ≡ none
      → env.err_after ≡ none
      → Delivers u (forwarded_request parse r) chunks
      → (extract_usage decoder (buffer (nonempty chunks))).total_tokens ≢ pos 0
      → (cb' : CircuitBreaker F) × (stream fuel t decoder parse tenant r env u cb
          ≡ some (
            cb',
            record {
              wire = stream_headers ++ events (nonempty chunks);
              recorded = some (tenant, (r.model, extract_usage decoder (buffer (nonempty chunks))));
            },
          ))
  unfolding stream
  stream-usage fuel t decoder parse tenant r env u cb chunks h p q d positive =
      let (cb', e) =
        stream_chat_completion-Delivers env u (forwarded_request parse r) cb chunks h p q d in
      (
        cb',
        ap (answer_stream fuel t decoder tenant r) e
            ∙ ap (with_breaker cb') (
                recorded_answer-usage fuel t tenant r (stream_headers ++ events (nonempty chunks))
                  (buffer (nonempty chunks)) (extract_usage decoder (buffer (nonempty chunks)))
                  positive),
      )

  -- A stream without a usage never ends. Through a closed breaker, in a context that is never done and
  -- with a response that delivers the chunks and ends: as long as the tokenizer of the package is the initial one,
  -- the handler of a stream whose chunks hold no usage has not returned at any depth of the call
  -- stack.
  pub stream-no_usage :
      (fuel : ℕ) (decoder : Decoder) (parse : Text → M) (tenant : ℕ) (r : ChatRequest) (env : Env)
      (u : StreamUpstream M) (cb : CircuitBreaker F) (chunks : List Text)
      → get_state cb ≡ closed
      → env.err_before ≡ none
      → env.err_after ≡ none
      → Delivers u (forwarded_request parse r) chunks
      → (extract_usage decoder (buffer (nonempty chunks))).total_tokens ≡ pos 0
      → stream fuel initial_tokenizer decoder parse tenant r env u cb ≡ none
  unfolding stream
  stream-no_usage fuel decoder parse tenant r env u cb chunks h p q d zero_tokens =
      let (cb', e) =
        stream_chat_completion-Delivers env u (forwarded_request parse r) cb chunks h p q d in
      ap (answer_stream fuel initial_tokenizer decoder tenant r) e
      ∙ ap
          (λ x.
            with_breaker cb'
              (recorded_answer tenant r (stream_headers ++ events (nonempty chunks)) x))
          (usage_or_estimate-initial fuel (initial_tokenizer {F = F}) r (buffer (nonempty chunks))
            (extract_usage decoder (buffer (nonempty chunks))) refl zero_tokens)
