-- ===== src/Handler/Stream/Tests.antt =====
-- The theorems on streamed chat completions at concrete streams.
use gateway_a.Prelude.{
  ℤ, has_prefix, text_contains, lookup, string_eq, pos, Text, codes, true, none, some, List, [],
  ◌∷◌, ◌++◌, ◌≡◌, refl, ok, err, message, arith,
}
use gateway_a.Samples.{whole}
use gateway_a.CircuitBreaker.{CircuitBreaker, Env, new, get_state, closed}
use gateway_a.LlmClient.{ReadEnd, more, eof, stream_loop}
use gateway_a.LlmClient.Stream.{
  Forwarded, ChatCompletionRequest, StreamUpstream, StreamReply, replied, unsent, stream_attempt,
  stream_chat_completion,
}
use gateway_a.Tokenizer.{initial_tokenizer}
use gateway_a.Usage.{Usage}
use gateway_a.Handler.Guards.{ChatRequest}
use gateway_a.Handler.Stream.{
  Decoder, stream_headers, events, buffer, split_lines, usage_of_line, last_usage, or_no_usage,
  extract_usage, forwarded_request, stream,
}
use gateway_a.Handler.Stream.Usages.{usage_of_chunks, extract_usage-buffer}
use gateway_a.Handler.Stream.Laws.{nonempty, Delivers, stream-usage, stream-no_usage}

abbrev used : Usage
used = record { prompt_tokens = pos 3; completion_tokens = pos 4; total_tokens = pos 7 }

-- A decoder of texts that all hold a usage, and one that decodes nothing.
abbrev decoder : Decoder
decoder = record {
  object = λ s. ok ((codes "usage", s) ∷ []);
  usage = λ s. ok used;
  trim_space = λ s. s;
}

abbrev no_decoder : Decoder
no_decoder = record {
  object = λ s. err (message []);
  usage = λ s. err (message []);
  trim_space = λ s. s;
}

abbrev request : ChatRequest
request = record { model = codes "m"; messages = codes "[1]"; stream = true; max_tokens = pos 5 }

abbrev same : Text → Text
same t = t

abbrev usage_event : Text
usage_event = codes "data: {\"usage\": 7}"

abbrev chunks : List Text
chunks = usage_event ∷ [] ∷ []

abbrev provider : StreamReply → StreamUpstream Text
provider reply = record { marshal = λ r. ok r.model; build = λ body. ok tt; send = λ body. reply }

abbrev streaming : StreamReply
streaming = replied 200 (codes "200 OK") [] ((usage_event, more) ∷ ([], more) ∷ ([], eof) ∷ [])

abbrev overloaded : StreamReply
overloaded = replied 503 (codes "503") (codes "busy") []

abbrev live : Env
live = record {
  allow_time = pos 10;
  record_time = pos 20;
  reset_time = pos 30;
  err_before = none;
  err_after = none;
}

abbrev breaker : CircuitBreaker ℤ
breaker = new (record {
  failure_threshold = pos 50;
  reset_timeout = pos 30000000000;
  half_open_max_requests = pos 3;
  timeout = pos 30000000000;
})

breaker_closed : get_state breaker ≡ closed
unfolding get_state new
breaker_closed = refl

delivered : Delivers (provider streaming) (forwarded_request same request) chunks
delivered = record {
  body = codes "m";
  marshalled = unfold gateway_a.LlmClient.Stream.with_usage in refl;
  built = refl;
  status = codes "200 OK";
  whole_body = [];
  last = [];
  rest = [];
  sent = refl;
}

extract_usage-buffer_example :
    extract_usage decoder (buffer chunks) ≡ or_no_usage (usage_of_chunks decoder chunks)
extract_usage-buffer_example = extract_usage-buffer decoder chunks refl

extracted : extract_usage decoder (buffer (nonempty chunks)) ≡ used
unfolding extract_usage buffer split_lines last_usage usage_of_line has_prefix text_contains lookup
extracted = refl

stream-usage_example :
    (cb' : CircuitBreaker ℤ) × (stream 9 initial_tokenizer decoder same 7 request live
        (provider streaming)
        breaker
      ≡ some (
        cb',
        record {
          wire = stream_headers ++ events (nonempty chunks);
          recorded = some (7, (codes "m", extract_usage decoder (buffer (nonempty chunks))));
        },
      ))
stream-usage_example =
    stream-usage 9 initial_tokenizer decoder same 7 request live (provider streaming) breaker chunks
      breaker_closed refl refl delivered (λ e. ground (arith, extracted, e))

nothing_extracted : (extract_usage no_decoder (buffer (nonempty chunks))).total_tokens ≡ pos 0
unfolding extract_usage buffer split_lines last_usage usage_of_line has_prefix text_contains lookup
nothing_extracted = refl

stream-no_usage_example :
    stream 9 initial_tokenizer no_decoder same 7 request live (provider streaming) breaker ≡ none
stream-no_usage_example =
    stream-no_usage 9 no_decoder same 7 request live (provider streaming) breaker chunks
      breaker_closed refl refl delivered nothing_extracted
