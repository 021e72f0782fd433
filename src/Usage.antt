-- ===== src/Usage.antt =====
-- internal/handler/helpers.go: the daily quota check, and the recording of usage with its retries
-- and its dead-letter file. The database is outside the repository: a table is the list of its
-- rows in the order of their primary keys, a statement that fails changes nothing, and `First`
-- takes the first matching row in that order.
pub mod Quota
pub mod Recording
pub mod DeadLetters
pub mod Metering
mod Tests
use gateway_a.Prelude.{
  ℕ, zero, suc, ◌+◌, ℤ, pos, ◌+ℤ◌, ltb_ℤ, leb_ℤ, to_int64, Text, text_eq, nat_eq, codes, any, Bool,
  true, false, not, ◌&&◌, ◌||◌, Option, none, some, List, [], ◌∷◌, ◌++◌, map, if◌then◌else◌, ◌==◌,
  Error, message, wrapped, Result, ok, err,
}

pub record Usage : Type 0 where
  pub prompt_tokens : ℤ
  pub completion_tokens : ℤ
  pub total_tokens : ℤ

-- A row of the table of model.UsageTrack, as far as this code reads and writes it.
pub record UsageTrack : Type 0 where
  pub tenant_id : ℕ
  pub date : Text
  pub model : Text
  pub prompt_tokens : ℤ
  pub completion_tokens : ℤ
  pub total_tokens : ℤ

abbrev pub is_of_day : ℕ → Text → UsageTrack → Bool
is_of_day tenant date r = (r.tenant_id == tenant) && (r.date == date)

abbrev pub is_of_model : ℕ → Text → Text → UsageTrack → Bool
is_of_model tenant date model r = is_of_day tenant date r && (r.model == model)

-- db.Where("tenant_id = ? AND date = ?", ...).First
unfoldable pub first_of_day : ℕ → Text → List UsageTrack → Option UsageTrack
first_of_day tenant date [] = none
first_of_day tenant date (r ∷ rows) =
    if is_of_day tenant date r then some r else first_of_day tenant date rows

abbrev pub current_total : Option UsageTrack → ℤ
current_total none = pos 0
current_total (some r) = r.total_tokens

-- checkQuota with a database, less its counter (Usage/Metering): `read` is the error of the first query other than that there is no
-- row, and `quota` is the tenant's daily quota, if the tenant can be loaded.
unfoldable pub check_quota :
    ℕ → ℤ → Text → List UsageTrack → (read : Option Error) → (quota : Result ℤ) → Option Error
check_quota tenant tokens today rows (some e) quota = some e
check_quota tenant tokens today rows none (err e) =
    some (wrapped (codes "failed to load tenant: ") e)
check_quota tenant tokens today rows none (ok quota) =
    let total = current_total (first_of_day tenant today rows) in
    if ltb_ℤ quota (to_int64 (total +ℤ tokens))
    then some (message (codes "daily quota exceeded"))
    else none

abbrev pub add_usage : Usage → UsageTrack → UsageTrack
add_usage u r = record r {
  prompt_tokens = r.prompt_tokens +ℤ u.prompt_tokens;
  completion_tokens = r.completion_tokens +ℤ u.completion_tokens;
  total_tokens = r.total_tokens +ℤ u.total_tokens;
}

-- The update of every matching row, and the row that Create adds.
unfoldable pub update_rows : ℕ → Text → Text → Usage → List UsageTrack → List UsageTrack
update_rows tenant date model u [] = []
update_rows tenant date model u (r ∷ rows) =
    (if is_of_model tenant date model r then add_usage u r else r)
    ∷ update_rows tenant date model u rows

abbrev pub new_row : ℕ → Text → Text → Usage → UsageTrack
new_row tenant date model u = record {
  tenant_id = tenant;
  date = date;
  model = model;
  prompt_tokens = u.prompt_tokens;
  completion_tokens = u.completion_tokens;
  total_tokens = u.total_tokens;
}

-- The day at each attempt, and the errors of its two statements; and the error of opening the dead-letter
-- file or of writing to it, behind the last attempt.
pub record Database : Type 0 where
  pub today : ℕ → Text
  pub update_error : ℕ → Option Error
  pub create_error : ℕ → Option Error
  pub letter_error : Option Error

-- A record of the dead-letter file, less its time.
pub record DeadLetter : Type 0 where
  pub tenant_id : ℕ
  pub model : Text
  pub usage : Usage
  pub error : Error

pub record Store : Type 0 where
  pub rows : List UsageTrack
  pub letters : List DeadLetter

-- The statements of one attempt that go through: update, and create where nothing matched.
unfoldable pub written : ℕ → Text → Usage → Text → List UsageTrack → List UsageTrack
written tenant model u date rows =
    if any (is_of_model tenant date model) rows
    then update_rows tenant date model u rows
    else rows ++ new_row tenant date model u ∷ []

module _ (tenant : ℕ) (model : Text) (u : Usage) (db : Database) where
  abbrev create : ℕ → List UsageTrack → Result (List UsageTrack)
  create attempt rows = elim (db.create_error attempt) [
    | some e ↦ err e
    | none ↦ ok (rows ++ new_row tenant (db.today attempt) model u ∷ [])
  ]

  -- One attempt.
  unfoldable pub attempt_write : ℕ → List UsageTrack → Result (List UsageTrack)
  attempt_write attempt rows = elim (db.update_error attempt) [
    | some e ↦ err e
    | none ↦
        if any (is_of_model tenant (db.today attempt) model) rows
        then ok (update_rows tenant (db.today attempt) model u rows)
        else create attempt rows
  ]

  abbrev pub dead_letter : Error → DeadLetter
  dead_letter e = record { tenant_id = tenant; model = model; usage = u; error = e }

  -- writeUsageDeadLetter, which passes over its errors: a record that cannot be written is lost.
  abbrev pub with_letter : Error → Store → Store
  with_letter e s = elim db.letter_error [
    | none ↦ record s { letters = s.letters ++ dead_letter e ∷ [] }
    | some x ↦ s
  ]

  -- The loop from an attempt on, with `left` attempts behind it.
  record_loop : ℕ → ℕ → Store → Store
  record_loop zero attempt s = elim (attempt_write attempt s.rows) [
    | ok rows ↦ record s { rows = rows }
    | err e ↦ with_letter e s
  ]
  record_loop (suc left) attempt s = elim (attempt_write attempt s.rows) [
    | ok rows ↦ record s { rows = rows }
    | err e ↦ record_loop left (attempt + 1) s
  ]

  -- recordUsageWithRetry, less its counters (Usage/Metering): three attempts.
  unfoldable pub record_usage_with_retry : Store → Store
  unfolding record_loop
  record_usage_with_retry s = record_loop 2 0 s
