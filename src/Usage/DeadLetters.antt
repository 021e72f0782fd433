-- ===== src/Usage/DeadLetters.antt =====
-- internal/handler/helpers.go: ProcessUsageDeadLetter, over the lines of the dead-letter file with the
-- space around each taken off. The JSON package says what a line holds.
use gateway_a.Prelude.{
  ℕ, suc, ◌+◌, Text, text_eq, nat_eq, any, false, Option, none, some, List, [], ◌∷◌, length,
  if◌then◌else◌, Error, Result, ok, err, ◌≡◌, refl, arith,
}
use gateway_a.Usage.{Usage, UsageTrack, is_of_model, update_rows}

-- A line of the file, as the code reads it.
pub record Letter : Type 0 where
  pub tenant_id : ℕ
  pub model : Text
  pub usage : Usage

-- The database and the clock during the call: the day and the error of the update at each record.
pub record Updates : Type 0 where
  pub today : ℕ → Text
  pub error : ℕ → Option Error

-- The rows, the lines to keep, and how many were processed; `remaining` is the number of lines kept.
pub record Progress : Type 0 where
  pub rows : List UsageTrack
  pub kept : List Text
  pub processed : ℕ
  pub remaining : ℕ

module _ (decode : Text → Result Letter) (db : Updates) where
  abbrev keep : Text → Progress → Progress
  keep line p = record p { kept = line ∷ p.kept; remaining = p.remaining + 1 }

  abbrev count : Progress → Progress
  count p = record p { processed = p.processed + 1 }

  -- The update of the rows of a letter, if it goes through and a row matches.
  abbrev updated : Option Error → Text → Letter → List UsageTrack → Option (List UsageTrack)
  updated (some e) date l rows = none
  updated none date l rows =
      if any (is_of_model l.tenant_id date l.model) rows
      then some (update_rows l.tenant_id date l.model l.usage rows)
      else none

  -- The rows after a line, where it is processed.
  abbrev pub after_letter : ℕ → Result Letter → List UsageTrack → Option (List UsageTrack)
  after_letter i (err e) rows = none
  after_letter i (ok l) rows = updated (db.error i) (db.today i) l rows

  abbrev or_same : Option (List UsageTrack) → List UsageTrack → List UsageTrack
  or_same none rows = rows
  or_same (some after) rows = after

  abbrev add_line : Option (List UsageTrack) → Text → Progress → Progress
  add_line none line p = keep line p
  add_line (some after) line p = count p

  -- The loop over the lines, from the record of a number on.
  unfoldable pub process_lines : ℕ → List Text → List UsageTrack → Progress
  process_lines i [] rows = record { rows = rows; kept = []; processed = 0; remaining = 0 }
  process_lines i ([] ∷ lines) rows = process_lines i lines rows
  process_lines i ((c ∷ line) ∷ lines) rows =
      let after = after_letter i (decode (c ∷ line)) rows in
      add_line after (c ∷ line) (process_lines (i + 1) lines (or_same after rows))

  -- ProcessUsageDeadLetter with a database and a file.
  unfoldable pub process_usage_dead_letter : List Text → List UsageTrack → Progress
  unfolding process_lines
  process_usage_dead_letter lines rows = process_lines 0 lines rows

  -- The lines that are not blank.
  abbrev pub records : List Text → List Text
  records [] = []
  records ([] ∷ lines) = records lines
  records ((c ∷ line) ∷ lines) = (c ∷ line) ∷ records lines

  abbrev Counted : ℕ → Progress → Type 0
  Counted n p = (p.processed + length p.kept ≡ n) × (p.remaining ≡ length p.kept)

  add_line-Counted :
      (o : Option (List UsageTrack)) (line : Text) (p : Progress) (n : ℕ)
      → Counted n p
      → Counted (suc n) (add_line o line p)
  add_line-Counted none line p n (h, r) = (omega arith, omega arith)
  add_line-Counted (some after) line p n (h, r) = (omega arith, omega arith)

  process_lines-Counted :
      (i : ℕ) (lines : List Text) (rows : List UsageTrack)
      → Counted (length (records lines)) (process_lines i lines rows)
  unfolding process_lines
  process_lines-Counted i [] rows = (refl, refl)
  process_lines-Counted i ([] ∷ lines) rows = process_lines-Counted i lines rows
  process_lines-Counted i ((c ∷ line) ∷ lines) rows =
      add_line-Counted (after_letter i (decode (c ∷ line)) rows) (c ∷ line) _
        (length (records lines)) (process_lines-Counted (i + 1) lines _)

  -- What no day's row is there for.
  abbrev pub IsStuck : List UsageTrack → Text → Type 0
  IsStuck rows line =
      (l : Letter) (i : ℕ)
      → decode line ≡ ok l
      → any (is_of_model l.tenant_id (db.today i) l.model) rows ≡ false

  -- Every record of the file is either counted as processed or kept, and the number of those that
  -- remain is that of the lines kept.
  pub process_usage_dead_letter-length :
      (lines : List Text) (rows : List UsageTrack)
      → let p = process_usage_dead_letter lines rows in
        (p.processed + length p.kept ≡ length (records lines)) × (p.remaining ≡ length p.kept)
  unfolding process_usage_dead_letter
  process_usage_dead_letter-length lines rows = process_lines-Counted 0 lines rows
