-- ===== src/Server/Exposition.antt =====
-- internal/server/server.go: the handler of /metrics. What the Prometheus client gathers, the verbs
-- %q and %g of fmt are parameters.
pub mod Lines
mod Tests
use gateway_a.Prelude.{
  ℕ, Text, codes, Option, none, some, List, [], ◌∷◌, ◌++◌, map, Error, error_text, Result, ok, err,
}
use gateway_a.Http.{Action, json, header, set_status, set_body, text}

pub record LabelPair : Type 0 where
  pub name : Text
  pub value : Text

-- A metric that was gathered: the value of a counter or a gauge, the sum of a histogram.
pub record Sample (F : Type 0) : Type 0 where
  pub label : List LabelPair
  pub counter : Option F
  pub gauge : Option F
  pub histogram : Option F

-- A family of metrics; `type` is the number of its type, of which there are six.
pub record MetricFamily (F : Type 0) : Type 0 where
  pub name : Text
  pub help : Text
  pub type : ℕ
  pub metric : List (Sample F)

pub record Verbs (F : Type 0) : Type 0 where
  -- %q of a text, and %g of a float
  pub quoted : Text → Text
  pub general : F → Text

-- strings.Join(labels, ",")
abbrev pub joined : List Text → Text
joined [] = []
joined (p ∷ []) = p
joined (p ∷ q ∷ rest) = p ++ (b',' ∷ joined (q ∷ rest))

module _ {F : Type 0} (verbs : Verbs F) where
  abbrev pub label_text : LabelPair → Text
  label_text l = l.name ++ (b'=' ∷ verbs.quoted l.value)

  -- The brace is closed only where there are labels.
  abbrev pub labels_text : List Text → Text
  labels_text [] = []
  labels_text (l ∷ labels) = joined (l ∷ labels) ++ (b'}' ∷ [])

  abbrev pub value_text : Sample F → Text
  value_text m = elim m.counter [
    | some x ↦ verbs.general x
    | none ↦ elim m.gauge [
      | some x ↦ verbs.general x
      | none ↦ elim m.histogram [ some x ↦ verbs.general x | none ↦ [] ]
    ]
  ]

  abbrev pub sample_line : Sample F → Text
  sample_line m = b'{' ∷ (labels_text (map label_text m.label) ++ (b' ' ∷ value_text m))

  abbrev pub help_line : MetricFamily F → Text
  help_line f = codes "# HELP " ++ (f.name ++ (b' ' ∷ f.help))

  -- string(mf.GetType()) is the character of that number.
  abbrev pub type_line : MetricFamily F → Text
  type_line f = codes "# TYPE " ++ (f.name ++ (b' ' ∷ f.type ∷ []))

  -- What is written for the samples of a family and for the families, before what follows them.
  unfoldable pub samples_text : List (Sample F) → Text → Text
  samples_text [] rest = 10 ∷ rest
  samples_text (m ∷ metrics) rest = sample_line m ++ (10 ∷ samples_text metrics rest)

  unfoldable pub metrics_text : List (MetricFamily F) → Text
  unfolding samples_text
  metrics_text [] = []
  metrics_text (f ∷ families) =
      help_line f ++ (10 ∷ (type_line f ++ (10 ∷ samples_text f.metric (metrics_text families))))

  -- The handler.
  unfoldable pub metrics_endpoint : Result (List (MetricFamily F)) → List Action
  unfolding metrics_text
  metrics_endpoint (err e) = json 500 (("error", text (error_text e)) ∷ []) ∷ []
  metrics_endpoint (ok families) =
      set_status 200
      ∷ header "Content-Type" (codes "text/plain; version=0.0.4")
      ∷ set_body (metrics_text families)
      ∷ []
