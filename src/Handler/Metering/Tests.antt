-- ===== src/Handler/Metering/Tests.antt =====
-- The theorem on the metrics of a request at a provider that reports a negative number of tokens.
use gateway_a.Prelude.{codes, pos, negsuc, Option, some, Result, ok, refl, ◌≡◌}
use gateway_a.Samples.{whole}
use gateway_a.Usage.{Usage}
use gateway_a.Handler.{answer_to_client}
use gateway_a.Handler.Metering.{panicked, metered_answer, metered_answer-negative}
use gateway_a.Metrics.Memory.{memory, memory-IsLawful, empty}

abbrev negative_usage : Usage
negative_usage = record {
  prompt_tokens = negsuc 0;
  completion_tokens = pos 4;
  total_tokens = pos 3;
}

abbrev reply : Result (Option Usage)
reply = ok (some negative_usage)

metered_answer-negative_example :
    metered_answer (λ u. u) memory 7 (codes "gpt-4") (pos 3, (pos 7, pos 10)) (pos 2) empty reply
    ≡ panicked (answer_to_client (λ u. u) 7 (codes "gpt-4") (pos 3, (pos 7, pos 10)) reply).recorded
metered_answer-negative_example =
    metered_answer-negative (λ u. u) memory memory-IsLawful 7 (codes "gpt-4")
      (pos 3, (pos 7, pos 10)) (pos 2) empty reply refl
