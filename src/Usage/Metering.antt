-- ===== src/Usage/Metering.antt =====
-- internal/handler/helpers.go: its three counters, with the recording of usage and the quota check as
-- they count. The Prometheus client is that of Metrics/Client; a panic in the goroutine that records a
-- usage ends the process.
pub mod Laws
pub mod Registration
use gateway_a.Prelude.{
  ℕ, zero, suc, ◌+◌, ℤ, pos, ◌+ℤ◌, ltb_ℤ, to_int64, itoa, Text, codes, Bool, true, false, Option,
  none, some, List, [], ◌∷◌, ◌++◌, Float64, Error, Result, ok, err,
}
use gateway_a.Usage.{
  Usage, UsageTrack, Database, Store, first_of_day, current_total, check_quota, attempt_write,
  with_letter,
}
use gateway_a.Metrics.{register_all, perform}
use gateway_a.Metrics.Client.{Vector, counter, Use, inc, added, Prometheus}

abbrev pub prom_tenant_usage : Vector
prom_tenant_usage = record {
  kind = counter;
  name = "gateway_a_tenant_usage_tokens_total";
  help = "Total tokens used by tenant per model";
  labels = "tenant_id" ∷ "model" ∷ "type" ∷ [];
}

abbrev pub prom_quota_exceeded : Vector
prom_quota_exceeded = record {
  kind = counter;
  name = "gateway_a_quota_exceeded_total";
  help = "Total quota exceeded events";
  labels = "tenant_id" ∷ "quota_type" ∷ [];
}

abbrev pub prom_usage_record_failures : Vector
prom_usage_record_failures = record {
  kind = counter;
  name = "gateway_a_usage_record_failures_total";
  help = "Total failures when recording usage to DB";
  labels = "operation" ∷ [];
}

-- The calls of prometheus.MustRegister in init, in order.
abbrev pub init_registered : List Vector
init_registered = prom_tenant_usage ∷ prom_quota_exceeded ∷ prom_usage_record_failures ∷ []

abbrev pub usage_labels : ℕ → Text → Text → List Text
usage_labels tenant model type = itoa (pos tenant) ∷ model ∷ type ∷ []

module _ {F : Type 0} ⦃f : Float64 F⦄ where
  abbrev usage_use : ℕ → Text → Text → ℤ → Use F
  usage_use tenant model type count = record {
    vector = prom_tenant_usage;
    values = usage_labels tenant model type;
    change = added (f.of_int count);
  }

  -- What recordUsageWithRetry counts behind a write.
  abbrev pub usage_uses : ℕ → Text → Usage → List (Use F)
  usage_uses tenant model u =
      usage_use tenant model (codes "prompt") u.prompt_tokens
      ∷ usage_use tenant model (codes "completion") u.completion_tokens
      ∷ usage_use tenant model (codes "total") u.total_tokens
      ∷ []

  abbrev pub failure_use : Text → Use F
  failure_use operation = record {
    vector = prom_usage_record_failures;
    values = operation ∷ [];
    change = inc;
  }

  abbrev pub exceeded_use : ℕ → Use F
  exceeded_use tenant = record {
    vector = prom_quota_exceeded;
    values = itoa (pos tenant) ∷ (codes "daily") ∷ [];
    change = inc;
  }

  module _ (P : Prometheus F) where
    -- init; `none` is its panic.
    unfoldable pub init : P.Registry → Option P.Registry
    init = register_all P init_registered

    module _ (tenant : ℕ) (model : Text) (u : Usage) (db : Database) where
      -- The label of a failed attempt, by its statement that failed.
      abbrev pub operation : ℕ → Text
      operation attempt = elim (db.update_error attempt) [
        | some e ↦ codes "update"
        | none ↦ codes "create"
      ]

      -- The dead letter is written behind the counter.
      abbrev lettered : Error → Store → Option P.Registry → Store × Option P.Registry
      lettered e s none = (s, none)
      lettered e s (some r) = (with_letter tenant model u db e s, some r)

      -- The loop from an attempt on, with `left` attempts behind it: the tables and the file, and the
      -- registry, which is `none` after a panic.
      metered_loop : ℕ → ℕ → Store → P.Registry → Store × Option P.Registry
      metered_loop zero attempt s r = elim (attempt_write tenant model u db attempt s.rows) [
        | ok rows ↦ (record s { rows = rows }, perform P (usage_uses tenant model u) r)
        | err e ↦ lettered e s (P.update (failure_use (operation attempt)) r)
      ]
      metered_loop (suc left) attempt s r = elim (attempt_write tenant model u db attempt s.rows) [
        | ok rows ↦ (record s { rows = rows }, perform P (usage_uses tenant model u) r)
        | err e ↦ metered_loop left (attempt + 1) s r
      ]

      -- recordUsageWithRetry with its counters.
      unfoldable pub metered_record : Store → P.Registry → Store × Option P.Registry
      unfolding metered_loop
      metered_record s r = metered_loop 2 0 s r

    abbrev pub would_exceed : ℕ → ℤ → Text → List UsageTrack → Option Error → Result ℤ → Bool
    would_exceed tenant tokens today rows (some e) quota = false
    would_exceed tenant tokens today rows none (err e) = false
    would_exceed tenant tokens today rows none (ok quota) =
        ltb_ℤ quota (to_int64 (current_total (first_of_day tenant today rows) +ℤ tokens))

    abbrev pub counted_if : ℕ → Bool → P.Registry → Option P.Registry
    counted_if tenant true r = P.update (exceeded_use tenant) r
    counted_if tenant false r = some r

    -- checkQuota with its counter.
    unfoldable pub metered_check_quota :
        ℕ
        → ℤ
        → Text
        → List UsageTrack
        → Option Error
        → Result ℤ
        → P.Registry
        → Option Error × Option P.Registry
    unfolding check_quota
    metered_check_quota tenant tokens today rows read quota r = (
      check_quota tenant tokens today rows read quota,
      counted_if tenant (would_exceed tenant tokens today rows read quota) r,
    )
