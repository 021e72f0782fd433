-- ===== src/Usage/Tests.antt =====
-- The theorems on usage at a tenant with one row for the day.
use gateway_a.Usage.DeadLetters.{Letter, Updates}
use gateway_a.Prelude.{
  List, Result, ℕ, zero, suc, pos, negsuc, itoa, decimal, ◌+ℤ◌, Text, codes, Option, none, some, [],
  ◌∷◌, Error, message, ok, ◌≡◌, ◌≢◌, text_beq, text_beq_iff, true, refl,
}
use gateway_a.Usage.{
  Usage, UsageTrack, Database, Store, first_of_day, check_quota, written, attempt_write,
  update_rows,
}
use gateway_a.Usage.Quota.{check_quota-written}
use gateway_a.Usage.Metering.{metered_record}
use gateway_a.Usage.Metering.Laws.{Ends, metered_record-Ends}
use gateway_a.Metrics.Client.{fits}
use gateway_a.Metrics.Memory.{memory, memory-IsLawful, empty}
use gateway_a.Samples.{whole}

abbrev today : Text
today = codes "2026-01-02"

abbrev small : UsageTrack
small = record {
  tenant_id = 7;
  date = today;
  model = codes "small";
  prompt_tokens = pos 1;
  completion_tokens = pos 2;
  total_tokens = pos 3;
}

abbrev used : Usage
used = record { prompt_tokens = pos 4000; completion_tokens = pos 5000; total_tokens = pos 9000 }

small-ne_large : codes "small" ≢ codes "large"
small-ne_large e =
    let equal : text_beq (codes "small") (codes "large") ≡ true =
      (text_beq_iff (codes "small") (codes "large")).1 e in
    cc equal

-- 9000 tokens of another model, with a quota of 100, leave room for 50 more.
check_quota-written_example :
    check_quota 7
      (pos 50)
      today
      (written 7 (codes "large") used today (small ∷ []))
      none
      (ok (pos 100))
    ≡ check_quota 7 (pos 50) today (small ∷ []) none (ok (pos 100))
check_quota-written_example =
    check_quota-written 7 (pos 50) today (codes "large") used (small ∷ []) small none (ok (pos 100))
      (unfold first_of_day in refl) small-ne_large

-- A database whose first update fails.
abbrev first_fails : ℕ → Option Error
first_fails zero = some (message (codes "busy"))
first_fails (suc i) = none

abbrev database : Database
database = record {
  today = λ i. today;
  update_error = first_fails;
  create_error = λ i. none;
  letter_error = none;
}

abbrev store : Store
store = record { rows = small ∷ []; letters = [] }

-- The second attempt writes, and the three counters grow.
metered_record-Ends_example :
    Ends memory memory-IsLawful 7
      (codes "small")
      used
      database
      store
      empty
      (metered_record memory 7 (codes "small") used database store empty)
      0
      2
metered_record-Ends_example =
    metered_record-Ends memory memory-IsLawful 7 (codes "small") used database store empty refl

-- A negative number of completion tokens: the row is written, and the process panics.
abbrev negative : Usage
negative = record { prompt_tokens = pos 4; completion_tokens = negsuc 0; total_tokens = pos 3 }

metered_record-negative : metered_record memory 7 (codes "small") negative database store empty ≡ (
  record store {
    rows =
        (record small { prompt_tokens = pos 5; completion_tokens = pos 1; total_tokens = pos 6 })
        ∷ [];
  },
  none,
)
unfolding metered_record attempt_write update_rows fits itoa decimal ◌+ℤ◌
metered_record-negative = refl

-- A dead-letter file of one record, whose tenant has no row yet.
abbrev lost : Letter
lost = record {
  tenant_id = 3;
  model = codes "large";
  usage = record { prompt_tokens = pos 1; completion_tokens = pos 1; total_tokens = pos 2 };
}

abbrev decoded : Text → Result Letter
decoded line = ok lost

abbrev working : Updates
working = record { today = λ i. codes "2024-01-02"; error = λ i. none }

abbrev lines : List Text
lines = codes "{}" ∷ [] ∷ []
