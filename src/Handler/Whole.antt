-- ===== src/Handler/Whole.antt =====
-- ChatCompletion of internal/handler/llm.go as a whole: its guards, and then its half with or without a
-- stream, by what the request asks for.
use gateway_a.Prelude.{
  ℕ, ℤ, pos, Text, Bool, true, false, Option, none, some, List, [], ◌∷◌, ◌++◌, if◌then◌else◌, ◌≡◌,
  ◌≢◌, refl, arith, Float64, Error, Result, ok, err, leb_ℤ, ◌&&◌,
}
use mathlib.Core.Path.{subst}
use gateway_a.CircuitBreaker.{CircuitBreaker, Env}
use gateway_a.LlmClient.{Upstream, Event, retries_of, chat_completion as client_completion}
use gateway_a.LlmClient.Stream.{StreamUpstream, stream_chat_completion}
use gateway_a.Tokenizer.{Tokenizer}
use gateway_a.Usage.{Usage}
use gateway_a.Handler.{Answer, non_stream, record_usage, answer_to_client}
use gateway_a.Handler.Guards.{
  ChatRequest, Incoming, LlmHandler, Database, Admission, refused, admitted, admit,
}
use gateway_a.Handler.Tenants.{Tenant}
use gateway_a.Handler.Stream.{
  Decoder, StreamAnswer, Wire, stream, forwarded_request, stream_headers, events, buffer,
  extract_usage, usage_or_estimate, answer_stream, after_stream, with_breaker, recorded_answer,
}

pub data Response (R : Type 0) : Type 0 where
  plain : Answer R → Response R
  streamed : StreamAnswer → Response R

-- The usage that a goroutine is started to record.
abbrev pub recorded_of : {R : Type 0} → Response R → Option (ℕ × (Text × Usage))
recorded_of (plain a) = a.recorded
recorded_of (streamed a) = a.recorded

-- What the code that answers relies on: the codec, the default tokenizer with the depth of the call
-- stack, the quota numbers, and the provider with and without a stream.
pub record Surroundings (R M F : Type 0) : Type 0 where
  pub usage_of : R → Usage
  pub decoder : Decoder
  pub parse_messages : Text → M
  pub fuel : ℕ
  pub default_tokenizer : Tokenizer F
  pub status : ℤ × (ℤ × ℤ)
  pub env : Env
  pub upstream_of : Text → ChatRequest → Upstream R
  pub stream_upstream_of : Text → ChatRequest → StreamUpstream M

module _ {F R : Type 0} where
  abbrev as_plain : CircuitBreaker F × (Answer R × List Event) → CircuitBreaker F × Response R
  as_plain (cb, (a, events)) = (cb, plain a)

  abbrev as_streamed :
      Option (CircuitBreaker F × StreamAnswer) → Option (CircuitBreaker F × Response R)
  as_streamed none = none
  as_streamed (some (cb, a)) = some (cb, streamed a)

module _ {F : Type 0} ⦃fl : Float64 F⦄ {R M : Type 0} where
  abbrev pub answer_admitted :
      LlmHandler
      → Surroundings R M F
      → CircuitBreaker F
      → Text
      → Tenant
      → ChatRequest
      → Bool
      → Option (CircuitBreaker F × Response R)
  answer_admitted h s cb key tenant r true = as_streamed (
      stream s.fuel s.default_tokenizer s.decoder s.parse_messages tenant.id r s.env
        (s.stream_upstream_of key r) cb)
  answer_admitted h s cb key tenant r false =
      some (as_plain (non_stream s.usage_of h tenant r s.status s.env (s.upstream_of key r) cb))

  abbrev pub answer_admission :
      LlmHandler
      → Surroundings R M F
      → CircuitBreaker F
      → Admission
      → Option (CircuitBreaker F × Response R)
  answer_admission h s cb (refused a) =
      some (cb, plain (record { actions = a ∷ []; response = none; recorded = none }))
  answer_admission h s cb (admitted key tenant r) = answer_admitted h s cb key tenant r r.stream

  -- ChatCompletion: `none` where it does not return.
  unfoldable pub chat_completion :
      (hash : Text → Text)
      → LlmHandler
      → Option Database
      → Incoming
      → Surroundings R M F
      → CircuitBreaker F
      → Option (CircuitBreaker F × Response R)
  unfolding admit stream
  chat_completion hash h db i s cb = answer_admission h s cb (admit hash h db i)

-- The usage is that of the tenant and the model, and of a number of tokens that is not zero.
abbrev pub Charges : ℕ → Text → Option (ℕ × (Text × Usage)) → Type 0
Charges tenant model none = Unit
Charges tenant model (some (t, (m, u))) = (t ≡ tenant) × (m ≡ model) × (u.total_tokens ≢ pos 0)

Charges-if :
    (tenant : ℕ) (model : Text) (u : Usage) (is_zero : Bool)
    → (is_zero ≡ false → u.total_tokens ≢ pos 0)
    → Charges tenant model (if is_zero then none else some (tenant, (model, u)))
Charges-if tenant model u true h = tt
Charges-if tenant model u false h = (refl, refl, h refl)

abbrev stream_recorded : Option StreamAnswer → Option (ℕ × (Text × Usage))
stream_recorded none = none
stream_recorded (some a) = a.recorded

record_usage-Charges :
    (tenant : ℕ) (model : Text) (u : Usage) → Charges tenant model (record_usage tenant model u)
record_usage-Charges tenant model u =
    Charges-if tenant model u (leb_ℤ u.total_tokens (pos 0) && leb_ℤ (pos 0) u.total_tokens)
      (λ nonzero e. ground (arith, nonzero, e))

recorded_answer-Charges :
    (tenant : ℕ) (r : ChatRequest) (wire : List Wire) (u : Option Usage)
    → Charges tenant r.model (stream_recorded (recorded_answer tenant r wire u))
recorded_answer-Charges tenant r wire none = tt
recorded_answer-Charges tenant r wire (some u) = record_usage-Charges tenant r.model u

answer_to_client-Charges :
    {R : Type 0} (usage_of : R → Usage) (tenant : ℕ) (model : Text) (status : ℤ × (ℤ × ℤ))
    (result : Result (Option R))
    → Charges tenant model (answer_to_client usage_of tenant model status result).recorded
answer_to_client-Charges usage_of tenant model status (err e) = tt
answer_to_client-Charges usage_of tenant model status (ok none) = tt
answer_to_client-Charges usage_of tenant model status (ok (some r)) =
    record_usage-Charges tenant model (usage_of r)

-- What is recorded by an answer, if there is one.
abbrev result_recorded :
    {F R : Type 0} → Option (CircuitBreaker F × Response R) → Option (ℕ × (Text × Usage))
result_recorded none = none
result_recorded (some (cb, x)) = recorded_of x

-- A request that the guards refuse records nothing, and one that they let through only for its tenant
-- and its model.
abbrev pub Accounts : Admission → Option (ℕ × (Text × Usage)) → Type 0
Accounts (refused a) recorded = recorded ≡ none
Accounts (admitted key tenant r) recorded = Charges tenant.id r.model recorded

module _ {F : Type 0} where
  with_breaker-Charges :
      (R : Type 0) (tenant : ℕ) (model : Text) (cb : CircuitBreaker F) (o : Option StreamAnswer)
      → Charges tenant model (stream_recorded o)
      → Charges tenant model (result_recorded (as_streamed {R = R} (with_breaker cb o)))
  with_breaker-Charges R tenant model cb none h = tt
  with_breaker-Charges R tenant model cb (some a) h = h

module _ {F : Type 0} ⦃fl : Float64 F⦄ where
  after_stream-Charges :
      (fuel : ℕ) (t : Tokenizer F) (decoder : Decoder) (tenant : ℕ) (r : ChatRequest)
      (chunks : List Text) (e : Option Error)
      → Charges tenant r.model (stream_recorded (after_stream fuel t decoder tenant r chunks e))
  after_stream-Charges fuel t decoder tenant r chunks (some e) = tt
  after_stream-Charges fuel t decoder tenant r chunks none =
      recorded_answer-Charges tenant r (stream_headers ++ events chunks)
        (usage_or_estimate fuel t r (buffer chunks) (extract_usage decoder (buffer chunks)))

  answer_stream-Charges :
      (R : Type 0) (fuel : ℕ) (t : Tokenizer F) (decoder : Decoder) (tenant : ℕ) (r : ChatRequest)
      (result : Option (CircuitBreaker F × List Text × Option Error))
      → Charges tenant r.model
          (result_recorded (as_streamed {R = R} (answer_stream fuel t decoder tenant r result)))
  answer_stream-Charges R fuel t decoder tenant r none = tt
  answer_stream-Charges R fuel t decoder tenant r (some (cb, chunks, e)) =
      with_breaker-Charges R tenant r.model cb (after_stream fuel t decoder tenant r chunks e)
        (after_stream-Charges fuel t decoder tenant r chunks e)

module _ {F : Type 0} ⦃fl : Float64 F⦄ {R M : Type 0} where
  answer_admitted-Charges :
      (h : LlmHandler) (s : Surroundings R M F) (cb : CircuitBreaker F) (key : Text)
      (tenant : Tenant) (r : ChatRequest) (streaming : Bool)
      → Charges tenant.id r.model (result_recorded (answer_admitted h s cb key tenant r streaming))
  unfolding stream
  answer_admitted-Charges h s cb key tenant r true =
      answer_stream-Charges R s.fuel s.default_tokenizer s.decoder tenant.id r (
        stream_chat_completion s.env (s.stream_upstream_of key r)
          (forwarded_request s.parse_messages r) cb)
  answer_admitted-Charges h s cb key tenant r false =
      answer_to_client-Charges s.usage_of tenant.id r.model s.status
        (client_completion (retries_of h.max_retries) s.env (s.upstream_of key r) cb).1

  answer_admission-Accounts :
      (h : LlmHandler) (s : Surroundings R M F) (cb : CircuitBreaker F) (a : Admission)
      → Accounts a (result_recorded (answer_admission h s cb a))
  answer_admission-Accounts h s cb (refused a) = refl
  answer_admission-Accounts h s cb (admitted key tenant r) =
      answer_admitted-Charges h s cb key tenant r r.stream

  -- Whatever the provider does, in a stream or not, the usage that ChatCompletion has recorded is that of
  -- an admitted request, under its tenant and its model, and of a number of tokens that is not zero; a
  -- request that the guards refuse records nothing.
  pub chat_completion-Accounts :
      (hash : Text → Text) (h : LlmHandler) (db : Option Database) (i : Incoming)
      (s : Surroundings R M F) (cb cb' : CircuitBreaker F) (x : Response R)
      → chat_completion hash h db i s cb ≡ some (cb', x)
      → Accounts (admit hash h db i) (recorded_of x)
  unfolding chat_completion
  chat_completion-Accounts hash h db i s cb cb' x e =
      subst
        (λ (o : Option (CircuitBreaker F × Response R)).
          Accounts (admit hash h db i) (result_recorded o))
        e (answer_admission-Accounts h s cb (admit hash h db i))
