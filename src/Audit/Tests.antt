-- ===== src/Audit/Tests.antt =====
-- The theorems on auditing at concrete requests and events.
use gateway_a.Prelude.{
  ℕ, ◌+◌, ◌<◌, pos, none, some, List, [], ◌∷◌, map, codes, arith, All, ◌≡◌, refl, ◌↔◌, true, false,
  ◌&&◌, Text, text_eq, if◌then◌else◌, leb, ◌<ℤ◌,
}
use gateway_a.Audit.{
  AuditEvent, default_logger, default_sensitive_fields, string, Exchange, record_exchange, event_of,
  should_audit,
}
use gateway_a.Audit.FileStore.{
  FileAuditStore, new_file_store, written, Label, saved, worked, Trace, start, step, receive, write,
  save as save_event, take_event,
}
use gateway_a.Audit.FileStore.Delivery.{accepted, contents, Trace-contents}
use gateway_a.Audit.Redaction.{NoUpper, Hidden}
use gateway_a.Audit.Recording.{record_exchange-Masked}

abbrev lower_byte : ℕ → ℕ
lower_byte c = if leb b'A' c && leb c b'Z' then c + 32 else c

abbrev to_lower : Text → Text
to_lower = map lower_byte

abbrev as_value : Text → Text
as_value s = s

abbrev event : Text → AuditEvent Text
event action = record {
  timestamp = codes "2026-01-02T03:04:05Z";
  request_id = codes "r1";
  user_id = codes "alice";
  ip_address = codes "10.0.0.1";
  action = action;
  endpoint = codes "/tenants?";
  method = codes "POST";
  status_code = 201;
  success = true;
  duration = pos 12;
  metadata = [];
  input = [];
}

abbrev created : AuditEvent Text
created = event (codes "create_tenant")

abbrev deleted : AuditEvent Text
deleted = event (codes "delete_tenant")

abbrev exchange : Exchange
exchange = record {
  raw_body = codes "{}";
  status_code = 201;
  audit_action = some (string (codes "create_tenant"));
  user_id = none;
  api_key = some (string (codes "k"));
  authorization = [];
  client_ip = codes "10.0.0.1";
  path = codes "/tenants";
  query = [];
  host = codes "gw";
  forwarded_proto = [];
  method = codes "POST";
  request_id = codes "r1";
  timestamp = codes "2026-01-02T03:04:05Z";
  duration = pos 12;
}

abbrev body : List (Text × Text)
body = (codes "Password", codes "hunter2") ∷ (codes "name", codes "acme") ∷ []

abbrev decode : Text → List (Text × Text)
decode s = body

lower_byte-NoUpper : (c : ℕ) → (leb b'A' (lower_byte c) && leb (lower_byte c) b'Z') ≡ false
lower_byte-NoUpper c = ground arith

to_lower-NoUpper : (key : Text) → NoUpper (to_lower key)
to_lower-NoUpper [] = tt
to_lower-NoUpper (c ∷ key) = (lower_byte-NoUpper c, to_lower-NoUpper key)

abbrev recorded_event : AuditEvent Text
recorded_event =
    event_of to_lower (λ s. s) as_value decode default_logger exchange (codes "create_tenant")

exchange-recorded :
    record_exchange to_lower (λ s. s) as_value decode default_logger exchange ≡ some recorded_event
unfolding record_exchange should_audit
exchange-recorded = refl

record_exchange-Masked_example :
    All (Hidden to_lower as_value default_sensitive_fields) recorded_event.input
    × ((recorded_event.success ≡ true) ↔ (201 < 400))
    × (pos 10240 <ℤ pos 2 → recorded_event.input ≡ [])
record_exchange-Masked_example =
    record_exchange-Masked to_lower (λ s. s) as_value decode default_logger exchange
      {e = recorded_event} exchange-recorded

-- One event is saved, received and written; another is saved, and the writer stops.
abbrev empty : FileAuditStore Text
empty = new_file_store 1

abbrev one_sent : FileAuditStore Text
one_sent = record empty { channel = created ∷ [] }

abbrev one_written : FileAuditStore Text
one_written = record empty { file = (created ∷ []) ∷ [] }

abbrev first_steps : List (Label Text)
first_steps = saved created ∷ worked written ∷ []

one_written-Trace : Trace empty first_steps one_written
unfolding receive write
one_written-Trace =
    step {ls = saved created ∷ []} (step {ls = []} start (save_event created (omega arith) refl))
      (take_event written refl refl)

Trace-contents_example : contents one_written ≡ accepted first_steps
Trace-contents_example = Trace-contents one_written-Trace (tt, ((λ e. cc), tt))

abbrev closing_store : FileAuditStore Text
closing_store = record one_sent { done = true }

abbrev stopped : FileAuditStore Text
stopped = record closing_store { channel_closed = true; running = false }
