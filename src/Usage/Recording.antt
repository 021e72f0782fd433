-- ===== src/Usage/Recording.antt =====
-- Where a usage ends that internal/handler/helpers.go records: in the table or in the dead-letter
-- file.
use mathlib.Core.Path.{subst}
use native.Mathlib.Decide.{dec_lt}
use gateway_a.Prelude.{
  ℕ, zero, suc, ◌+◌, ◌≤◌, Text, any, Bool-cases, Option-cases, List, [], ◌∷◌, ◌++◌, Error, ok, err,
  ◌≡◌, ◌⊎◌, inl, inr, arith, refl, none, some,
}
use gateway_a.Usage.{
  Usage, UsageTrack, Database, Store, written, attempt_write, record_loop, record_usage_with_retry,
  dead_letter, with_letter, is_of_model,
}

module _ (tenant : ℕ) (model : Text) (u : Usage) (db : Database) where
  -- Attempt i fails on these rows.
  abbrev pub Fails : List UsageTrack → ℕ → Type 0
  Fails rows i = (e : Error) × (attempt_write tenant model u db i rows ≡ err e)

  -- The usage is written once, at one of the attempts from a to b.
  abbrev pub WrittenOnce : Store → Store → ℕ → ℕ → Type 0
  WrittenOnce s t a b =
      (i : ℕ) × (a ≤ i)
      × (i ≤ b)
      × (t ≡ record s { rows = written tenant model u (db.today i) s.rows })

  -- One dead letter of an error is written, or the file cannot be, and nothing is changed.
  abbrev pub LetterOrLost : Store → Store → Error → Type 0
  LetterOrLost s t e =
      ((db.letter_error ≡ none)
        × (t ≡ record s { letters = s.letters ++ dead_letter tenant model u db e ∷ [] }))
      ⊎ (((x : Error) × (db.letter_error ≡ some x)) × (t ≡ s))

  pub with_letter-LetterOrLost :
      (e : Error) (s : Store) → LetterOrLost s (with_letter tenant model u db e s) e
  with_letter-LetterOrLost e s = elim (Option-cases db.letter_error) [
    | inl p ↦ inl (p, rw p refl)
    | inr (x, p) ↦ inr ((x, p), rw p refl)
  ]

  -- The attempts from a to b all fail, and at most one dead letter is written.
  abbrev pub LetterOnce : Store → Store → ℕ → ℕ → Type 0
  LetterOnce s t a b =
      ((i : ℕ) → a ≤ i → i ≤ b → Fails s.rows i) × ((e : Error) × LetterOrLost s t e)

  pub attempt_write-cases :
      (i : ℕ) (rows : List UsageTrack)
      → (attempt_write tenant model u db i rows ≡ ok (written tenant model u (db.today i) rows))
        ⊎ Fails rows i
  unfolding attempt_write written
  attempt_write-cases i rows = elim (Option-cases (db.update_error i)) [
    | inr (e, p) ↦ inr (e, ground (arith, p))
    | inl p ↦ elim (Option-cases (db.create_error i)) [
      | inl q ↦ inl (ground (arith, p, q))
      | inr (e, q) ↦ elim (Bool-cases (any (is_of_model tenant (db.today i) model) rows)) [
        | inl m ↦ inl (ground (arith, p, m))
        | inr m ↦ inr (e, ground (arith, p, q, m))
      ]
    ]
  ]

  -- Attempt a fails, and so do those after it.
  pub Fails-from :
      (rows : List UsageTrack) (a b : ℕ)
      → Fails rows a
      → ((i : ℕ) → a + 1 ≤ i → i ≤ b → Fails rows i)
      → (i : ℕ) → a ≤ i
      → i ≤ b
      → Fails rows i
  Fails-from rows a b f rest i l h = elim (dec_lt a i) [
    | yes less ↦ rest i (omega arith) h
    | no ¬less ↦ let e : a ≡ i = omega arith in subst (Fails rows) e f
  ]

  record_loop-cases :
      (left a b : ℕ) (s : Store)
      → a + left ≡ b
      → WrittenOnce s (record_loop tenant model u db left a s) a b
        ⊎ LetterOnce s (record_loop tenant model u db left a s) a b
  unfolding record_loop
  record_loop-cases zero a b s p = elim (attempt_write-cases a s.rows) [
    | inl w ↦ inl (a, omega arith, omega arith, ground (arith, w))
    | inr (e, f) ↦
        rw (record_loop, f)
          (inr (
            Fails-from s.rows a b (e, f) (λ i l h. absurd (omega arith)),
            (e, with_letter-LetterOrLost e s),
          ))
  ]
  record_loop-cases (suc left) a b s p = elim (attempt_write-cases a s.rows) [
    | inl w ↦ inl (a, omega arith, omega arith, ground (arith, w))
    | inr (e, f) ↦ elim (record_loop-cases left (a + 1) b s (omega arith)) [
      | inl (i, l, h, q) ↦ inl (i, omega arith, h, ground (arith, f, q))
      | inr (fs, letter) ↦ rw (record_loop, f) (inr (Fails-from s.rows a b (e, f) fs, letter))
    ]
  ]

  -- Of three attempts, either one writes the usage into the table, once, and there is no dead
  -- letter; or all of them fail, the table is as before, and there is one dead letter of the usage, or
  -- nothing at all where the dead-letter file cannot be opened or written.
  pub record_usage_with_retry-cases :
      (s : Store)
      → WrittenOnce s (record_usage_with_retry tenant model u db s) 0 2
        ⊎ LetterOnce s (record_usage_with_retry tenant model u db s) 0 2
  unfolding record_usage_with_retry
  record_usage_with_retry-cases s = record_loop-cases 2 0 2 s (omega arith)
