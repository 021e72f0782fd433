-- ===== src/Server/Exposition/Lines.antt =====
-- internal/server/server.go: the lines of the answer of /metrics, against the text format of
-- Prometheus, in which the line of a sample begins with the name of its metric.

use gateway_a.Prelude.{
  ltb, nat_eq, Text, Bool, true, false, not, ◌&&◌, List, [], ◌∷◌, ◌++◌, map, all, All, all-append,
  Option-cases, inl, inr, ◌==◌, ◌≡◌, refl, ap, ◌∙◌, arith,
}
use gateway_a.Handler.Stream.{split_lines}
use gateway_a.Handler.Stream.Usages.{split_lines-append}
use gateway_a.Server.Exposition.{
  LabelPair, Sample, MetricFamily, Verbs, joined, label_text, labels_text, value_text, sample_line,
  help_line, type_line, samples_text, metrics_text,
}

-- Whether a text has no line break.
abbrev pub unbroken : Text → Bool
unbroken = all (λ c. not (c == 10))

-- Whether a line is one of a sample: neither empty nor a comment, nor begun by a brace, with which
-- no name of a metric begins.
abbrev pub is_sample : Text → Bool
is_sample [] = false
is_sample (c ∷ line) = not (c == b'#') && not (c == b'{')

module _ {F : Type 0} where
  abbrev pub IsTidy : MetricFamily F → Type 0
  IsTidy f =
      (unbroken f.name ≡ true)
      × (unbroken f.help ≡ true)
      × (ltb f.type 6 ≡ true)
      × All (λ m. All (λ l. unbroken l.name ≡ true) m.label) f.metric

split_lines-unbroken : (s : Text) → unbroken s ≡ true → split_lines s ≡ s ∷ []
unfolding split_lines
split_lines-unbroken [] h = refl
split_lines-unbroken (c ∷ s) h = ground (arith, split_lines-unbroken s)

split_lines-line :
    (s rest : Text) → unbroken s ≡ true → split_lines (s ++ (10 ∷ rest)) ≡ s ∷ split_lines rest
split_lines-line s rest h =
    split_lines-append s rest ∙ ap (λ ls. ls ++ split_lines rest) (split_lines-unbroken s h)

module _ {F : Type 0} (verbs : Verbs F) where
  -- The texts that %q and %g give are on one line.
  abbrev pub OneLine : Type 0
  OneLine =
      ((t : Text) → unbroken (verbs.quoted t) ≡ true)
      × ((x : F) → unbroken (verbs.general x) ≡ true)

  -- The lines of the answer.
  abbrev pub lines_of : List (MetricFamily F) → List Text
  lines_of [] = [] ∷ []
  lines_of (f ∷ families) =
      help_line verbs f
      ∷ type_line verbs f
      ∷ (map (sample_line verbs) f.metric ++ ([] ∷ lines_of families))

  module _ (h : OneLine) where
    unbroken-append :
        (s t : Text) → unbroken s ≡ true → unbroken t ≡ true → unbroken (s ++ t) ≡ true
    unbroken-append s t hs ht = ground (arith, all-append (λ c. not (c == 10)) s t)

    label-unbroken : (l : LabelPair) → unbroken l.name ≡ true → unbroken (label_text verbs l) ≡ true
    label-unbroken l n = unbroken-append l.name _ n (h.0 l.value)

    joined-unbroken :
        (ls : List LabelPair)
        → All (λ l. unbroken l.name ≡ true) ls
        → unbroken (joined (map (label_text verbs) ls)) ≡ true
    joined-unbroken [] n = refl
    joined-unbroken (l ∷ []) n = label-unbroken l n.0
    joined-unbroken (l ∷ k ∷ ls) n =
        unbroken-append (label_text verbs l) _ (label-unbroken l n.0) (joined-unbroken (k ∷ ls) n.1)

    labels-unbroken :
        (ls : List LabelPair)
        → All (λ l. unbroken l.name ≡ true) ls
        → unbroken (labels_text verbs (map (label_text verbs) ls)) ≡ true
    labels-unbroken [] n = refl
    labels-unbroken (l ∷ ls) n =
        unbroken-append (joined (map (label_text verbs) (l ∷ ls))) (b'}' ∷ [])
          (joined-unbroken (l ∷ ls) n) refl

    value-unbroken : (m : Sample F) → unbroken (value_text verbs m) ≡ true
    value-unbroken m = elim (Option-cases m.counter) [
      | inr (x, e) ↦ rw e (h.1 x)
      | inl e ↦ elim (Option-cases m.gauge) [
        | inr (x, g) ↦ rw (e, g) (h.1 x)
        | inl g ↦ elim (Option-cases m.histogram) [
          | inr (x, k) ↦ rw (e, g, k) (h.1 x)
          | inl k ↦ rw (e, g, k) refl
        ]
      ]
    ]

    sample-unbroken :
        (m : Sample F)
        → All (λ l. unbroken l.name ≡ true) m.label
        → unbroken (sample_line verbs m) ≡ true
    sample-unbroken m n =
        unbroken-append (labels_text verbs (map (label_text verbs) m.label)) _
          (labels-unbroken m.label n) (value-unbroken m)

    help-unbroken : (f : MetricFamily F) → IsTidy f → unbroken (help_line verbs f) ≡ true
    help-unbroken f n = unbroken-append f.name _ n.0 n.1

    type-unbroken : (f : MetricFamily F) → IsTidy f → unbroken (type_line verbs f) ≡ true
    type-unbroken f n = unbroken-append f.name _ n.0 (ground (arith, n.2))

    samples_text-lines :
        (metrics : List (Sample F)) (rest : Text)
        → All (λ m. All (λ l. unbroken l.name ≡ true) m.label) metrics
        → split_lines (samples_text verbs metrics rest)
          ≡ map (sample_line verbs) metrics ++ ([] ∷ split_lines rest)
    unfolding samples_text split_lines
    samples_text-lines [] rest n = refl
    samples_text-lines (m ∷ metrics) rest n =
        split_lines-line (sample_line verbs m) _ (sample-unbroken m n.0)
        ∙ ap (λ ls. sample_line verbs m ∷ ls) (samples_text-lines metrics rest n.1)

    metrics_text-lines :
        (families : List (MetricFamily F))
        → All IsTidy families
        → split_lines (metrics_text verbs families) ≡ lines_of families
    unfolding metrics_text split_lines
    metrics_text-lines [] n = refl
    metrics_text-lines (f ∷ families) n =
        split_lines-line (help_line verbs f) _ (help-unbroken f n.0)
        ∙ ap (λ ls. help_line verbs f ∷ ls)
            (split_lines-line (type_line verbs f) _ (type-unbroken f n.0)
              ∙ ap (λ ls. type_line verbs f ∷ ls)
                  (samples_text-lines f.metric (metrics_text verbs families) n.0.3
                    ∙ ap (λ ls. map (sample_line verbs) f.metric ++ ([] ∷ ls))
                        (metrics_text-lines families n.1)))

    samples-none :
        (metrics : List (Sample F)) (ls : List Text)
        → All (λ l. is_sample l ≡ false) ls
        → All (λ l. is_sample l ≡ false) (map (sample_line verbs) metrics ++ ([] ∷ ls))
    samples-none [] ls n = (refl, n)
    samples-none (m ∷ metrics) ls n = (refl, samples-none metrics ls n)

    lines_of-none :
        (families : List (MetricFamily F)) → All (λ l. is_sample l ≡ false) (lines_of families)
    lines_of-none [] = (refl, tt)
    lines_of-none (f ∷ families) =
        (refl, (refl, samples-none f.metric (lines_of families) (lines_of-none families)))

    -- Where no name, help text or label name of the gathered families and no text that %q and %g
    -- give holds a line break, and the types are among the six of Prometheus, the answer of /metrics
    -- has exactly these lines: for each family its two comments, a line for each metric and an empty
    -- line. None of them is a line of a sample in the text format, because each line of a metric
    -- begins with a brace in place of the name.
    pub metrics_text-lines_of :
        (families : List (MetricFamily F))
        → All IsTidy families
        → (split_lines (metrics_text verbs families) ≡ lines_of families)
          × All (λ l. is_sample l ≡ false) (split_lines (metrics_text verbs families))
    metrics_text-lines_of families n =
        let e = metrics_text-lines families n in (e, rw e (lines_of-none families))
