-- ===== src/Audit/Stores.antt =====
-- The interface AuditStore of middleware/audit/audit.go over its three stores: the queries, of which
-- those of a file and of a database are stubs.
use gateway_a.Prelude.{ℤ, Text, List, []}
use gateway_a.Audit.{AuditEvent}
use gateway_a.Audit.InMemory.{get_events, get_events_by_action}
use gateway_a.Audit.Events.{AuditStore, file, database, memory}

module _ {V : Type 0} where
  -- GetEvents and GetEventsByAction of the store that the logger has.
  unfoldable pub get_events_of :
      (parse_time : Text → ℤ) → AuditStore V → Text → ℤ → ℤ → List (AuditEvent V)
  get_events_of parse_time (file path s) user start end_time = []
  get_events_of parse_time (database enabled) user start end_time = []
  get_events_of parse_time (memory s) user start end_time =
      get_events parse_time user start end_time s.events

  unfoldable pub get_events_by_action_of : AuditStore V → Text → ℤ → List (AuditEvent V)
  get_events_by_action_of (file path s) action limit = []
  get_events_by_action_of (database enabled) action limit = []
  get_events_by_action_of (memory s) action limit = get_events_by_action action limit s.events
