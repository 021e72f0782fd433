-- ===== src/Handler/Metering.antt =====
-- internal/handler/llm.go: the metrics of a request without a stream, which the handler records
-- between the reply of the client and the answer. A panic of the metrics client ends the request
-- there: the goroutine that records the usage is already started, and nothing is answered.
mod Tests
use gateway_a.Prelude.{
  ℕ, Text, codes, Bool, true, false, not, ◌&&◌, ◌||◌, Option, none, some, List, [], ◌∷◌, ℤ, pos,
  ltb_ℤ, all, any, is_ascii, Float64, Result, ok, err, if◌then◌else◌, ◌≡◌, refl, sym, ap, ◌∙◌,
  arith, Bool-cases, inl, inr,
}
use gateway_a.Usage.{Usage}
use gateway_a.Handler.{Answer, answer_to_client}
use gateway_a.Metrics.{perform}
use gateway_a.Metrics.Client.{Prometheus, IsLawful}
use gateway_a.Metrics.Vectors.{new_metrics}
use gateway_a.Metrics.Recordings.{
  Recording, uses_of_all, llm_request, llm_errorr, llm_tokens, llm_latency,
}
use gateway_a.Metrics.Counts.{perform-fits, perform-panics}
use gateway_a.Metrics.Runs.{panics, all-fits}

pub data Metered (R : Type 0) : Type 0 where
  answered : Answer R → Metered R
  -- what is recorded all the same
  panicked : (recorded : Option (ℕ × (Text × Usage))) → Metered R

module _ {R : Type 0} where
  abbrev unless_panicked : {S : Type 0} → Option S → Answer R → Metered R
  unless_panicked none a = panicked a.recorded
  unless_panicked (some s) a = answered a

module _ {R : Type 0} (usage_of : R → Usage) where
  -- A reply that reports a negative number of tokens.
  abbrev pub reports_negative : Result (Option R) → Bool
  reports_negative (ok (some r)) =
      ltb_ℤ (usage_of r).prompt_tokens (pos 0) || ltb_ℤ (usage_of r).completion_tokens (pos 0)
  reports_negative _ = false

module _ {R F : Type 0} (usage_of : R → Usage) where
  -- The calls of the metrics behind the client, in order; `latency` is in seconds.
  unfoldable pub recordings : Text → F → Result (Option R) → List (Recording F)
  recordings model latency (err e) = llm_errorr model (codes "upstream_error") ∷ []
  recordings model latency (ok none) = []
  recordings model latency (ok (some r)) =
      llm_request model (codes "openai") (codes "success")
      ∷ llm_tokens model (codes "prompt") (usage_of r).prompt_tokens
      ∷ llm_tokens model (codes "completion") (usage_of r).completion_tokens
      ∷ llm_latency model (codes "openai") latency
      ∷ []

  module _ ⦃f : Float64 F⦄ (P : Prometheus F) where
    -- nonStreamChatCompletion from the reply of the client on.
    unfoldable pub metered_answer :
        ℕ → Text → ℤ × (ℤ × ℤ) → F → P.Registry → Result (Option R) → Metered R
    unfolding recordings
    metered_answer tenant model status latency s result =
        unless_panicked (perform P (uses_of_all new_metrics (recordings model latency result)) s)
          (answer_to_client usage_of tenant model status result)

  module _ ⦃f : Float64 F⦄ (P : Prometheus F) (L : IsLawful P) where
    recordings-panics :
        (model : Text) (latency : F) (result : Result (Option R))
        → P.is_valid model ≡ true
        → any (panics P) (recordings model latency result) ≡ reports_negative usage_of result
    unfolding recordings
    recordings-panics model latency (err e) valid =
        ground (arith, L.ascii-is_valid (codes "upstream_error") refl)
    recordings-panics model latency (ok none) valid = refl
    recordings-panics model latency (ok (some r)) valid = ground (
      arith,
      L.ascii-is_valid (codes "openai") refl,
      L.ascii-is_valid (codes "success") refl,
      L.ascii-is_valid (codes "prompt") refl,
      L.ascii-is_valid (codes "completion") refl,
    )

    -- With the metrics of the server and a model whose name is valid UTF-8, the answer to the
    -- client is the same as without metrics unless the provider reports a negative number of prompt
    -- or completion tokens: then the handler panics before it answers, after it has started to
    -- record the usage.
    pub metered_answer-negative :
        (tenant : ℕ) (model : Text) (status : ℤ × (ℤ × ℤ)) (latency : F) (s : P.Registry)
        (result : Result (Option R))
        → P.is_valid model ≡ true
        → metered_answer P tenant model status latency s result ≡ (
            if reports_negative usage_of result
            then panicked (answer_to_client usage_of tenant model status result).recorded
            else answered (answer_to_client usage_of tenant model status result))
    unfolding metered_answer
    metered_answer-negative tenant model status latency s result valid =
        let calm = recordings-panics model latency result valid in
        elim (Bool-cases (reports_negative usage_of result)) [
          | inl bad ↦
              rw
                (
                  bad,
                  perform-panics P L (uses_of_all new_metrics (recordings model latency result)) s
                      (all-fits P L (recordings model latency result) ∙ ap not (calm ∙ bad)),
                )
                refl
          | inr good ↦
              let (t, e) =
                perform-fits P L (uses_of_all new_metrics (recordings model latency result)) s
                  (all-fits P L (recordings model latency result) ∙ ap not (calm ∙ good)) in
              rw (good, e) refl
        ]
