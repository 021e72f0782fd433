-- ===== src/Usage/Quota.antt =====
-- What the quota check of internal/handler/helpers.go sees of the usage recorded for a day.
use gateway_a.Prelude.{
  ℕ, ℤ, Text, text_eq, nat_eq, text_beq_iff, Option, none, some, List, [], ◌∷◌, ◌++◌, Error, Result,
  ok, err, ◌≡◌, ◌≢◌, refl, ap, arith, pos, ◌+ℤ◌, ◌≤ℤ◌, to_int64, ◌↔◌, ◌⊎◌,
}
use gateway_a.Usage.{
  Usage, UsageTrack, first_of_day, current_total, check_quota, update_rows, new_row, written,
}

first_of_day-append :
    (tenant : ℕ) (date : Text) (rows more : List UsageTrack) (r : UsageTrack)
    → first_of_day tenant date rows ≡ some r
    → first_of_day tenant date (rows ++ more) ≡ some r
unfolding first_of_day
first_of_day-append tenant date [] more r h = cc
first_of_day-append tenant date (q ∷ rows) more r h =
    ground (arith, first_of_day-append tenant date rows more r)

first_of_day-update_rows :
    (tenant : ℕ) (date model : Text) (u : Usage) (rows : List UsageTrack) (r : UsageTrack)
    → first_of_day tenant date rows ≡ some r
    → r.model ≢ model
    → first_of_day tenant date (update_rows tenant date model u rows) ≡ some r
unfolding first_of_day update_rows
first_of_day-update_rows tenant date model u [] r h ne = cc
first_of_day-update_rows tenant date model u (q ∷ rows) r h ne = ground (
  arith,
  text_beq_iff q.model model,
  λ (e : first_of_day tenant date rows ≡ some r).
      first_of_day-update_rows tenant date model u rows r e ne,
)

first_of_day-written :
    (tenant : ℕ) (date model : Text) (u : Usage) (rows : List UsageTrack) (r : UsageTrack)
    → first_of_day tenant date rows ≡ some r
    → r.model ≢ model
    → first_of_day tenant date (written tenant model u date rows) ≡ some r
unfolding written
first_of_day-written tenant date model u rows r h ne = ground (
  arith,
  first_of_day-update_rows tenant date model u rows r h ne,
  first_of_day-append tenant date rows (new_row tenant date model u ∷ []) r h,
)

-- Once a tenant has a row for the day, recording usage of any other model than that of its first
-- row does not change the answer of the quota check.
pub check_quota-written :
    (tenant : ℕ) (tokens : ℤ) (date model : Text) (u : Usage) (rows : List UsageTrack)
    (r : UsageTrack) (read : Option Error) (quota : Result ℤ)
    → first_of_day tenant date rows ≡ some r
    → r.model ≢ model
    → check_quota tenant tokens date (written tenant model u date rows) read quota
      ≡ check_quota tenant tokens date rows read quota
unfolding check_quota
check_quota-written tenant tokens date model u rows r (some e) quota h ne = refl
check_quota-written tenant tokens date model u rows r none (err e) h ne = refl
check_quota-written tenant tokens date model u rows r none (ok quota) h ne =
    rw (first_of_day-written tenant date model u rows r h ne, h) refl

abbrev pub IsOfDay : ℕ → Text → UsageTrack → Type 0
IsOfDay tenant date r = (r.tenant_id ≡ tenant) × (r.date ≡ date)

-- The total of the first row of the tenant and the day, or zero without one.
abbrev pub DayTotal : ℕ → Text → List UsageTrack → ℤ → Type 0
DayTotal tenant date [] total = total ≡ pos 0
DayTotal tenant date (r ∷ rows) total =
    (IsOfDay tenant date r × (total ≡ r.total_tokens))
    ⊎ ((¬ IsOfDay tenant date r) × DayTotal tenant date rows total)

DayTotal-current_total :
    (tenant : ℕ) (date : Text) (rows : List UsageTrack) (total : ℤ)
    → DayTotal tenant date rows total ↔ (total ≡ current_total (first_of_day tenant date rows))
unfolding first_of_day
DayTotal-current_total tenant date [] total = ground arith
DayTotal-current_total tenant date (r ∷ rows) total = ground (
  arith,
  nat_eq.beq_iff r.tenant_id tenant,
  text_eq.beq_iff r.date date,
  DayTotal-current_total tenant date rows total,
)

-- The usage of the day and these tokens, added in 64 bits, do not exceed the quota.
abbrev pub Fits : ℕ → Text → List UsageTrack → ℤ → ℤ → Type 0
Fits tenant date rows tokens quota =
    (total : ℤ) × DayTotal tenant date rows total × (to_int64 (total +ℤ tokens) ≤ℤ quota)

-- The quota check passes exactly where both its queries work and the tokens fit.
pub check_quota_iff :
    (tenant : ℕ) (tokens : ℤ) (date : Text) (rows : List UsageTrack) (read : Option Error)
    (quota : Result ℤ)
    → (check_quota tenant tokens date rows read quota ≡ none)
      ↔ ((read ≡ none) × ((q : ℤ) × (quota ≡ ok q) × Fits tenant date rows tokens q))
unfolding check_quota
check_quota_iff tenant tokens date rows (some e) quota = ground arith
check_quota_iff tenant tokens date rows none (err e) = (λ h. cc, λ (_, (q, p, _)). cc)
check_quota_iff tenant tokens date rows none (ok q) =
    let day = DayTotal-current_total tenant date rows in
    (
      λ h. (
        refl,
        (q, refl, (current_total (first_of_day tenant date rows), (day _).1 refl, ground arith)),
      ),
      λ (_, (x, same, (total, counted, fits))).
          let sum = ap (λ t. to_int64 (t +ℤ tokens)) ((day total).0 counted) in ground arith,
    )
