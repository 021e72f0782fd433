-- ===== src/Handler/Stream.antt =====
-- streamChatCompletion of internal/handler/llm.go, the half of ChatCompletion that answers with a
-- stream, and extractUsageFromStreamBuffer of internal/handler/helpers.go. Decoding, and
-- bytes.TrimSpace with its table of Unicode spaces, are parameters.
pub mod Usages
pub mod Laws
mod Tests
use gateway_a.Prelude.{
  ℕ, suc, ltb, ℤ, pos, ◌+ℤ◌, leb_ℤ, ltb_ℤ, to_int64, length, drop, Text, text_eq, nat_eq, codes,
  has_prefix, text_contains, lookup, Bool, true, false, ◌&&◌, ◌||◌, Option, none, some, List, [],
  ◌∷◌, ◌++◌, if◌then◌else◌, ◌==◌, Float64, Error, Result, ok, err, String,
}
use gateway_a.CircuitBreaker.{CircuitBreaker, Env}
use gateway_a.LlmClient.Stream.{ChatCompletionRequest, StreamUpstream, stream_chat_completion}
use gateway_a.Tokenizer.{Tokenizer, Config, default_config, estimate_tokens}
use gateway_a.Usage.{Usage}
use gateway_a.Handler.{record_usage}
use gateway_a.Handler.Guards.{ChatRequest}

-- What the handler does to the response, in order.
pub data Wire : Type 0 where
  -- ctx.Header, ctx.Write, ctx.Flush
  set : String → Text → Wire
  write : Text → Wire
  flush : Wire

-- The package sonic, on a JSON object and on a usage, and bytes.TrimSpace.
pub record Decoder : Type 0 where
  pub object : Text → Result (List (Text × Text))
  pub usage : Text → Result Usage
  pub trim_space : Text → Text

abbrev pub no_usage : Usage
no_usage = record { prompt_tokens = pos 0; completion_tokens = pos 0; total_tokens = pos 0 }

abbrev pub push_front : ℕ → List Text → List Text
push_front c [] = (c ∷ []) ∷ []
push_front c (l ∷ ls) = (c ∷ l) ∷ ls

-- bytes.Split(data, "\n")
unfoldable pub split_lines : Text → List Text
split_lines [] = [] ∷ []
split_lines (c ∷ s) = let rest = split_lines s in if c == 10 then [] ∷ rest else push_front c rest

-- What stands behind the first "data: ", or the whole line.
abbrev pub after_data : Text → Option Text
after_data [] = none
after_data (c ∷ s) =
    let rest = after_data s in
    if has_prefix (c ∷ s) (codes "data: ") then some (drop 6 (c ∷ s)) else rest

abbrev pub or_whole : Text → Option Text → Text
or_whole line none = line
or_whole line (some rest) = rest

abbrev pub positive_usage : Result Usage → Option Usage
positive_usage (err e) = none
positive_usage (ok u) = if ltb_ℤ (pos 0) u.total_tokens then some u else none

abbrev pub or_later : Option Usage → Option Usage → Option Usage
or_later earlier (some u) = some u
or_later earlier none = earlier

abbrev pub or_no_usage : Option Usage → Usage
or_no_usage none = no_usage
or_no_usage (some u) = u

module _ (decoder : Decoder) where
  abbrev pub decoded_usage : Option Text → Option Usage
  decoded_usage none = none
  decoded_usage (some raw) = if ltb 2 (length raw) then positive_usage (decoder.usage raw) else none

  abbrev pub usage_of_object : Result (List (Text × Text)) → Option Usage
  usage_of_object (err e) = none
  usage_of_object (ok fields) = decoded_usage (lookup (codes "usage") fields)

  abbrev pub usage_of_json : Text → Option Usage
  usage_of_json json =
      if text_contains json (codes "[DONE]") || ltb (length json) 10
      then none
      else usage_of_object (decoder.object json)

  -- The body of the loop, on a trimmed line.
  abbrev pub usage_of_trimmed : Text → Option Usage
  usage_of_trimmed line =
      if line == [] then none else usage_of_json (or_whole line (after_data line))

  unfoldable pub usage_of_line : Text → Option Usage
  usage_of_line line = usage_of_trimmed (decoder.trim_space line)

  -- The loop, from the last line to the first.
  unfoldable pub last_usage : List Text → Option Usage
  last_usage [] = none
  last_usage (l ∷ ls) = or_later (usage_of_line l) (last_usage ls)

  -- extractUsageFromStreamBuffer.
  unfoldable pub extract_usage : Text → Usage
  unfolding split_lines
  extract_usage [] = no_usage
  extract_usage (c ∷ buffer) = or_no_usage (last_usage (split_lines (c ∷ buffer)))

-- What the callback adds to the response and to the buffer, over all chunks.
abbrev pub events : List Text → List Wire
events [] = []
events (c ∷ chunks) =
    write (codes "data: ") ∷ write c ∷ write (10 ∷ 10 ∷ []) ∷ flush ∷ events chunks

unfoldable pub buffer : List Text → Text
buffer [] = []
buffer (c ∷ chunks) = c ++ (10 ∷ buffer chunks)

abbrev pub stream_headers : List Wire
stream_headers =
    set "Content-Type" (codes "text/event-stream")
    ∷ set "Cache-Control" (codes "no-cache")
    ∷ set "Connection" (codes "keep-alive")
    ∷ []

abbrev pub stream_failed : Text
stream_failed = codes "data: {\"error\": \"stream failed\"}" ++ (10 ∷ 10 ∷ [])

abbrev pub failure_event : Option Error → List Wire
failure_event none = []
failure_event (some e) = write stream_failed ∷ flush ∷ []

-- The request that is forwarded; `parse` is parseMessages.
abbrev pub forwarded_request : {M : Type 0} → (Text → M) → ChatRequest → ChatCompletionRequest M
forwarded_request parse r = record {
  model = r.model;
  messages = parse r.messages;
  max_tokens = some r.max_tokens;
  stream = true;
  stream_options = none;
}

-- The response and the usage that a goroutine is started to record.
pub record StreamAnswer : Type 0 where
  pub wire : List Wire
  pub recorded : Option (ℕ × (Text × Usage))

abbrev pub estimated_of : Option ℤ → Option ℤ → Option Usage
estimated_of (some p) (some c) =
    some (record { prompt_tokens = p; completion_tokens = c; total_tokens = to_int64 (p +ℤ c) })
estimated_of _ _ = none

abbrev pub recorded_answer : ℕ → ChatRequest → List Wire → Option Usage → Option StreamAnswer
recorded_answer tenant r wire none = none
recorded_answer tenant r wire (some u) =
    some (record { wire = wire; recorded = record_usage tenant r.model u })

module _ {F : Type 0} where
  abbrev pub with_breaker :
      CircuitBreaker F → Option StreamAnswer → Option (CircuitBreaker F × StreamAnswer)
  with_breaker cb none = none
  with_breaker cb (some a) = some (cb, a)

module _ {F : Type 0} ⦃fl : Float64 F⦄ (fuel : ℕ) (default_tokenizer : Tokenizer F) where
  -- The fallback on EstimatePromptTokens and EstimateCompletionTokens, on the fuel of their calls.
  abbrev pub estimated : ChatRequest → Text → Option Usage
  estimated r output =
      estimated_of (estimate_tokens fuel default_tokenizer r.messages r.model default_config)
        (estimate_tokens fuel default_tokenizer output r.model default_config)

  -- The usage to record: `none` where the function does not return.
  abbrev pub usage_or_estimate : ChatRequest → Text → Usage → Option Usage
  usage_or_estimate r output u =
      if leb_ℤ u.total_tokens (pos 0) && leb_ℤ (pos 0) u.total_tokens
      then estimated r output
      else some u

  -- From the result of StreamChatCompletion on.
  abbrev pub after_stream :
      Decoder → ℕ → ChatRequest → List Text → Option Error → Option StreamAnswer
  after_stream decoder tenant r chunks (some e) = some (record {
    wire = stream_headers ++ (events chunks ++ failure_event (some e));
    recorded = none;
  })
  after_stream decoder tenant r chunks none =
      recorded_answer tenant r (stream_headers ++ events chunks)
        (usage_or_estimate r (buffer chunks) (extract_usage decoder (buffer chunks)))

  abbrev pub answer_stream :
      Decoder
      → ℕ
      → ChatRequest
      → Option (CircuitBreaker F × List Text × Option Error)
      → Option (CircuitBreaker F × StreamAnswer)
  answer_stream decoder tenant r none = none
  answer_stream decoder tenant r (some (cb, chunks, e)) =
      with_breaker cb (after_stream decoder tenant r chunks e)

  -- streamChatCompletion for a tenant.
  unfoldable pub stream :
      {M : Type 0}
      → Decoder
      → (Text → M)
      → ℕ
      → ChatRequest
      → Env
      → StreamUpstream M
      → CircuitBreaker F
      → Option (CircuitBreaker F × StreamAnswer)
  unfolding stream_chat_completion extract_usage buffer
  stream decoder parse tenant r env u cb =
      answer_stream decoder tenant r (stream_chat_completion env u (forwarded_request parse r) cb)
