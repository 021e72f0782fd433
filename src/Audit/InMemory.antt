-- ===== src/Audit/InMemory.antt =====
-- InMemoryAuditStore of middleware/audit/audit.go. `none` is a panic: a slice out of range.
pub mod History
pub mod Queries
use gateway_a.Prelude.{
  ℕ, suc, ℤ, pos, negsuc, ◌-ℤ◌, ltb_ℤ, leb_ℤ, ltb, leb, length, drop, Text, Bool, not, ◌&&◌, Option,
  none, some, List, [], ◌∷◌, ◌++◌, if◌then◌else◌, ◌==◌, text_eq,
}
use gateway_a.Audit.{AuditEvent}

pub record InMemoryAuditStore (V : Type 0) : Type 0 where
  pub events : List (AuditEvent V)
  pub max_events : ℤ

module _ {V : Type 0} where
  abbrev pub new_in_memory : ℤ → InMemoryAuditStore V
  new_in_memory max_events = record { events = []; max_events = max_events }

  -- events[start:]
  abbrev slice_from : ℤ → List (AuditEvent V) → Option (List (AuditEvent V))
  slice_from (pos k) events = if leb k (length events) then some (drop k events) else none
  slice_from (negsuc k) events = none

  abbrev with_events :
      InMemoryAuditStore V → Option (List (AuditEvent V)) → Option (InMemoryAuditStore V)
  with_events store none = none
  with_events store (some events) = some (record store { events = events })

  unfoldable pub save : AuditEvent V → InMemoryAuditStore V → Option (InMemoryAuditStore V)
  save event store =
      let events = store.events ++ event ∷ [] in
      if ltb_ℤ store.max_events (pos (length events))
      then with_events store (slice_from (pos (length events) -ℤ store.max_events) events)
      else some (record store { events = events })

  unfoldable pub batch_save :
      List (AuditEvent V) → InMemoryAuditStore V → Option (InMemoryAuditStore V)
  batch_save [] store = some store
  batch_save (event ∷ events) store = elim (save event store) [
    | none ↦ none
    | some store' ↦ batch_save events store'
  ]

  -- GetEvents over the stored events; `parse_time` is `time.Parse(time.RFC3339, …)` with its zero
  -- result on an error.
  unfoldable pub get_events : (Text → ℤ) → Text → ℤ → ℤ → List (AuditEvent V) → List (AuditEvent V)
  get_events parse_time user start end_time [] = []
  get_events parse_time user start end_time (event ∷ events) =
      let rest = get_events parse_time user start end_time events in
      let time = parse_time event.timestamp in
      if event.user_id == user
      then if not (ltb_ℤ time start) && not (ltb_ℤ end_time time) then event ∷ rest else rest
      else rest

  -- The loop of GetEventsByAction, with the results so far.
  by_action : Text → ℤ → List (AuditEvent V) → List (AuditEvent V) → List (AuditEvent V)
  by_action action limit results [] = results
  by_action action limit results (event ∷ events) =
      let found = results ++ event ∷ [] in
      let with_found = by_action action limit found events in
      let without = by_action action limit results events in
      if event.action == action
      then if ltb_ℤ (pos 0) limit && leb_ℤ limit (pos (length found)) then found else with_found
      else without

  unfoldable pub get_events_by_action : Text → ℤ → List (AuditEvent V) → List (AuditEvent V)
  unfolding by_action
  get_events_by_action action limit events = by_action action limit [] events

  abbrev pub clear : InMemoryAuditStore V → InMemoryAuditStore V
  clear store = record store { events = [] }
