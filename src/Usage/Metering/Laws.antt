-- ===== src/Usage/Metering/Laws.antt =====
-- What the counters of internal/handler/helpers.go add to the recording of usage and to the quota
-- check.
use gateway_a.Prelude.{
  ℕ, zero, suc, ◌+◌, ℤ, pos, ltb_ℤ, itoa, itoa-ascii, Text, text_eq, codes, Bool, true, false, not,
  ◌||◌, Option, none, some, List, [], ◌∷◌, all, Float64, Error, Result, beq_refl, Option-cases,
  String, string_eq, if◌then◌else◌, ◌≡◌, ◌⊎◌, refl, ap, ◌∙◌, arith, Bool-cases, inl, inr,
}
use gateway_a.Usage.{
  Usage, UsageTrack, Database, Store, check_quota, record_loop, record_usage_with_retry,
}
use gateway_a.Usage.Recording.{
  WrittenOnce, LetterOnce, Fails-from, attempt_write-cases, with_letter-LetterOrLost,
}
use gateway_a.Usage.Metering.{
  prom_tenant_usage, prom_usage_record_failures, usage_labels, usage_uses, failure_use, operation,
  exceeded_use, metered_loop, metered_record, would_exceed, metered_check_quota, counted_if,
  prom_quota_exceeded,
}
use gateway_a.Metrics.{perform}
use gateway_a.Metrics.Client.{Prometheus, IsLawful, fits, changed, texts_eq}
use gateway_a.Metrics.Counts.{value_after, perform-panics, perform-value_after}

-- A usage that a counter refuses.
abbrev pub is_negative : Usage → Bool
is_negative u =
    ltb_ℤ u.prompt_tokens (pos 0)
    || (ltb_ℤ u.completion_tokens (pos 0) || ltb_ℤ u.total_tokens (pos 0))

module _ {F : Type 0} ⦃f : Float64 F⦄ (P : Prometheus F) (L : IsLawful P) (tenant : ℕ)
    (model : Text) (u : Usage) (db : Database) where
  -- The counter of a type of tokens behind a usage.
  abbrev pub Grown : P.Registry → P.Registry → Text → ℤ → Type 0
  Grown r t type count =
      let here = usage_labels tenant model type in
      L.value t prom_tenant_usage.name here
      ≡ P.plus (L.value r prom_tenant_usage.name here) (f.of_int count)

  abbrev pub AllGrown : P.Registry → P.Registry → Type 0
  AllGrown r t =
      Grown r t (codes "prompt") u.prompt_tokens
      × Grown r t (codes "completion") u.completion_tokens
      × Grown r t (codes "total") u.total_tokens

  -- Behind a write: a panic at a negative number, else the three counters have grown.
  abbrev pub Counts : P.Registry → Option P.Registry → Bool → Type 0
  Counts r q true = q ≡ none
  Counts r q false = (t : P.Registry) × (q ≡ some t) × AllGrown r t

  -- Behind the last failure: one failure more of its statement.
  abbrev pub CountsFailure : P.Registry → Option P.Registry → ℕ → Type 0
  CountsFailure r q attempt =
      let here = operation P tenant model u db attempt ∷ [] in
      (t : P.Registry) × (q ≡ some t)
      × (L.value t prom_usage_record_failures.name here
          ≡ P.plus (L.value r prom_usage_record_failures.name here) (f.of_int (pos 1)))

  usage_uses-fits :
      P.is_valid model ≡ true → all (fits P) (usage_uses tenant model u) ≡ not (is_negative u)
  unfolding fits
  usage_uses-fits valid = ground (
    arith,
    L.ascii-is_valid (itoa (pos tenant)) (itoa-ascii (pos tenant)),
    L.ascii-is_valid (codes "prompt") refl,
    L.ascii-is_valid (codes "completion") refl,
    L.ascii-is_valid (codes "total") refl,
    L.of_int-is_negative u.prompt_tokens,
    L.of_int-is_negative u.completion_tokens,
    L.of_int-is_negative u.total_tokens,
  )

  usage_uses-grown :
      (r t : P.Registry)
      → ((n : String) (ls : List Text)
          → L.value t n ls ≡ value_after P L (usage_uses tenant model u) n ls (L.value r n ls))
      → AllGrown r t
  unfolding changed
  usage_uses-grown r t values = (
    values prom_tenant_usage.name (usage_labels tenant model (codes "prompt"))
        ∙ ground (arith, beq_refl (itoa (pos tenant)), beq_refl model),
    values prom_tenant_usage.name (usage_labels tenant model (codes "completion"))
        ∙ ground (arith, beq_refl (itoa (pos tenant)), beq_refl model),
    values prom_tenant_usage.name (usage_labels tenant model (codes "total"))
        ∙ ground (arith, beq_refl (itoa (pos tenant)), beq_refl model),
  )

  usage_uses-Counts :
      (r : P.Registry)
      → P.is_valid model ≡ true
      → Counts r (perform P (usage_uses tenant model u) r) (is_negative u)
  usage_uses-Counts r valid = elim (Bool-cases (is_negative u)) [
    | inl bad ↦
        rw bad
          (perform-panics P L (usage_uses tenant model u) r (usage_uses-fits valid ∙ ap not bad))
    | inr good ↦
        let (t, e, values) =
          perform-value_after P L (usage_uses tenant model u) r
            (usage_uses-fits valid ∙ ap not good) in
        rw good (t, e, usage_uses-grown r t values)
  ]

  failure_use-fits :
      (attempt : ℕ) → fits P (failure_use (operation P tenant model u db attempt)) ≡ true
  unfolding fits
  failure_use-fits attempt = elim (Option-cases (db.update_error attempt)) [
    | inl p ↦ rw (operation, p) (ground (arith, L.ascii-is_valid (codes "create") refl))
    | inr (e, p) ↦ rw (operation, p) (ground (arith, L.ascii-is_valid (codes "update") refl))
  ]

  failure_use-CountsFailure :
      (r : P.Registry) (attempt : ℕ)
      → CountsFailure r (P.update (failure_use (operation P tenant model u db attempt)) r) attempt
  unfolding changed
  failure_use-CountsFailure r attempt =
      let label = operation P tenant model u db attempt in
      let (t, e, value) = L.update-fits (failure_use label) r (failure_use-fits attempt) in
      (t, e, value prom_usage_record_failures.name (label ∷ []) ∙ ground (arith, beq_refl label))

  -- A usage that is written is counted, and one that is lost is a failure that is counted.
  abbrev pub Ends : Store → P.Registry → Store × Option P.Registry → ℕ → ℕ → Type 0
  Ends s r (t, q) a b =
      (WrittenOnce tenant model u db s t a b × Counts r q (is_negative u))
      ⊎ (LetterOnce tenant model u db s t a b × CountsFailure r q b)

  metered_loop-Ends :
      (left a b : ℕ) (s : Store) (r : P.Registry)
      → P.is_valid model ≡ true
      → a + left ≡ b
      → Ends s r (metered_loop P tenant model u db left a s r) a b
  unfolding metered_loop
  metered_loop-Ends zero a b s r valid p = elim (attempt_write-cases tenant model u db a s.rows) [
    | inl w ↦
        rw (metered_loop, w) (inl ((a, omega arith, omega arith, refl), usage_uses-Counts r valid))
    | inr (e, g) ↦
        let (t, q, value) = failure_use-CountsFailure r a in
        rw (metered_loop, g, q)
          (let same : a ≡ b = omega arith in
            inr (
              (
                Fails-from tenant model u db s.rows a b (e, g) (λ i l h. absurd (omega arith)),
                (e, with_letter-LetterOrLost tenant model u db e s),
              ),
              rw (← same) (t, refl, value),
            ))
  ]
  metered_loop-Ends (suc left) a b s r valid p =
      elim (attempt_write-cases tenant model u db a s.rows) [
        | inl w ↦
            rw (metered_loop, w)
              (inl ((a, omega arith, omega arith, refl), usage_uses-Counts r valid))
        | inr (e, g) ↦
            rw (metered_loop, g)
              (elim (metered_loop-Ends left (a + 1) b s r valid (omega arith)) [
                | inl ((i, l, h, q), counts) ↦ inl ((i, omega arith, h, q), counts)
                | inr ((fs, letter), counts) ↦
                    inr ((Fails-from tenant model u db s.rows a b (e, g) fs, letter), counts)
              ])
      ]

  -- Of three attempts, either one writes the usage into the table, once, and there is no dead letter;
  -- or all of them fail, the table is as before, and there is one dead letter of the usage, or none where
  -- the dead-letter file cannot be opened or written: the usage is then lost. Let the name of the model
  -- be valid UTF-8. Behind the write, a negative number of tokens of any of the three
  -- types is a panic, which ends the process; else the three counters of the tenant and the model have
  -- grown by their numbers. Behind the last failure, the counter of the statement that failed has grown
  -- by one, without a panic.
  pub metered_record-Ends :
      (s : Store) (r : P.Registry)
      → P.is_valid model ≡ true
      → Ends s r (metered_record P tenant model u db s r) 0 2
  unfolding metered_record
  metered_record-Ends s r valid = metered_loop-Ends 2 0 2 s r valid (omega arith)

  metered_loop-store :
      (left a : ℕ) (s : Store) (r : P.Registry)
      → (metered_loop P tenant model u db left a s r).0 ≡ record_loop tenant model u db left a s
  unfolding metered_loop record_loop
  metered_loop-store zero a s r =
      let (t, q, value) = failure_use-CountsFailure r a in
      elim (attempt_write-cases tenant model u db a s.rows) [
        | inl w ↦ ground (arith, w)
        | inr (e, g) ↦ ground (arith, g, q)
      ]
  metered_loop-store (suc left) a s r = elim (attempt_write-cases tenant model u db a s.rows) [
    | inl w ↦ ground (arith, w)
    | inr (e, g) ↦ ground (arith, g, metered_loop-store left (a + 1) s r)
  ]

  -- The counters change nothing of what is stored.
  pub metered_record-store :
      (s : Store) (r : P.Registry)
      → (metered_record P tenant model u db s r).0 ≡ record_usage_with_retry tenant model u db s
  unfolding metered_record record_usage_with_retry
  metered_record-store s r = metered_loop-store 2 0 s r

module _ {F : Type 0} ⦃f : Float64 F⦄ (P : Prometheus F) (L : IsLawful P) (tenant : ℕ) where
  -- The counter of the refusals of a tenant grows by one where there is one.
  abbrev pub CountsRefusal : P.Registry → Option P.Registry → Bool → Type 0
  CountsRefusal r q exceeded =
      let here = itoa (pos tenant) ∷ (codes "daily") ∷ [] in
      let before = L.value r prom_quota_exceeded.name here in
      (t : P.Registry) × (q ≡ some t)
      × (L.value t prom_quota_exceeded.name here
          ≡ (if exceeded then P.plus before (f.of_int (pos 1)) else before))

  exceeded_use-fits : fits P (exceeded_use tenant) ≡ true
  unfolding fits
  exceeded_use-fits = ground (
    arith,
    L.ascii-is_valid (itoa (pos tenant)) (itoa-ascii (pos tenant)),
    L.ascii-is_valid (codes "daily") refl,
  )

  counted_if-CountsRefusal :
      (exceeded : Bool) (r : P.Registry) → CountsRefusal r (counted_if P tenant exceeded r) exceeded
  unfolding changed
  counted_if-CountsRefusal true r =
      let (t, e, value) = L.update-fits (exceeded_use tenant) r exceeded_use-fits in
      (
        t,
        e,
        value prom_quota_exceeded.name (itoa (pos tenant) ∷ (codes "daily") ∷ [])
            ∙ ground (arith, beq_refl (itoa (pos tenant))),
      )
  counted_if-CountsRefusal false r = (r, refl, refl)

  -- The quota check with its counter answers as without it and never panics; the counter grows by one
  -- exactly where the usage of the day and the tokens asked for would exceed the quota.
  pub metered_check_quota-CountsRefusal :
      (tokens : ℤ) (today : Text) (rows : List UsageTrack) (read : Option Error) (quota : Result ℤ)
      (r : P.Registry)
      → let (answer, q) = metered_check_quota P tenant tokens today rows read quota r in
        (answer ≡ check_quota tenant tokens today rows read quota)
        × CountsRefusal r q (would_exceed P tenant tokens today rows read quota)
  unfolding metered_check_quota
  metered_check_quota-CountsRefusal tokens today rows read quota r =
      (refl, counted_if-CountsRefusal (would_exceed P tenant tokens today rows read quota) r)
