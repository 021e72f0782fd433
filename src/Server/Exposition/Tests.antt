-- ===== src/Server/Exposition/Tests.antt =====
-- The theorem on the lines of /metrics at one counter with a label.
use gateway_a.Prelude.{
  Text, codes, ℤ, pos, none, some, List, [], ◌∷◌, ◌++◌, true, not, ◌==◌, nat_eq, all, All, ◌≡◌,
  refl, false,
}
use gateway_a.Handler.Stream.{split_lines}
use gateway_a.Server.Exposition.{MetricFamily, Verbs, metrics_text}
use gateway_a.Server.Exposition.Lines.{OneLine, is_sample, lines_of, metrics_text-lines_of}

-- Quotes around what holds no line break, and no digits.
abbrev without_breaks : Text → Text
without_breaks [] = []
without_breaks (c ∷ t) = b'x' ∷ without_breaks t

without_breaks-unbroken : (t : Text) → all (λ c. not (c == 10)) (without_breaks t) ≡ true
without_breaks-unbroken [] = refl
without_breaks-unbroken (c ∷ t) = without_breaks-unbroken t

abbrev verbs : Verbs ℤ
verbs = record { quoted = without_breaks; general = λ x. codes "12" }

abbrev requests : List (MetricFamily ℤ)
requests =
    record {
      name = codes "gateway_a_requests_total";
      help = codes "Total number of requests";
      type = 0;
      metric =
          record {
            label = record { name = codes "method"; value = codes "GET" } ∷ [];
            counter = some (pos 12);
            gauge = none;
            histogram = none;
          }
          ∷ [];
    }
    ∷ []

one_line : OneLine verbs
one_line = (without_breaks-unbroken, λ x. refl)

-- The text itself: the name of the metric is missing before the brace.
metrics_text_lem :
    metrics_text verbs requests
    ≡ codes
        "# HELP gateway_a_requests_total Total number of requests\n# TYPE gateway_a_requests_total "
      ++ (0 ∷ 10 ∷ codes "{method=xxx} 12\n\n")
unfolding metrics_text
metrics_text_lem = refl

metrics_text-lines_of_example :
    (split_lines (metrics_text verbs requests) ≡ lines_of verbs requests)
    × All (λ l. is_sample l ≡ false) (split_lines (metrics_text verbs requests))
metrics_text-lines_of_example =
    metrics_text-lines_of verbs one_line requests ((refl, refl, refl, ((refl, tt), tt)), tt)
