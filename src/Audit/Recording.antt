-- ===== src/Audit/Recording.antt =====
-- Which requests the audit middleware of middleware/audit/audit.go records, and what the events
-- hold.
use gateway_a.Prelude.{
  ◌<◌, pos, ◌<ℤ◌, length, Text, text_eq, Bool, true, Option, none, some, List, [], ◌∷◌, All,
  contains, ◌≡◌, refl, ◌↔◌, arith,
}
use gateway_a.Audit.{
  AuditEvent, AuditLogger, Exchange, ContextValue, string, other, redact_fields, admin_actions,
  should_audit_in, should_audit, event_of, record_exchange,
}
use gateway_a.Audit.Redaction.{Hidden, redact_fields-Hidden}

should_audit_in-contains :
    (enabled : Bool) (actions : List Text) (action : Text)
    → (should_audit_in enabled actions action ≡ true)
      ↔ ((enabled ≡ true) × (contains actions action ≡ true))
unfolding should_audit_in contains
should_audit_in-contains enabled [] action = ground arith
should_audit_in-contains enabled (a ∷ rest) action =
    ground (arith, should_audit_in-contains enabled rest action)

module _ {V : Type 0} (to_lower trim : Text → Text) (of_string : Text → V)
    (decode : Text → List (Text × V)) where
  abbrev recorded : AuditLogger → Exchange → Option (AuditEvent V)
  recorded = record_exchange to_lower trim of_string decode

  -- Why an event was recorded, and what it is.
  abbrev Reason : AuditLogger → Exchange → AuditEvent V → Type 0
  Reason logger x e =
      (action : Text) × (x.audit_action ≡ some (string action))
      × (should_audit logger action ≡ true)
      × (e ≡ event_of to_lower trim of_string decode logger x action)

  recorded-Reason :
      (logger : AuditLogger) (x : Exchange) (a : Option ContextValue) {e : AuditEvent V}
      → x.audit_action ≡ a
      → recorded logger x ≡ some e
      → Reason logger x e
  unfolding record_exchange
  recorded-Reason logger x none p h = absurd (ground arith)
  recorded-Reason logger x (some other) p h = absurd (ground arith)
  recorded-Reason logger x (some (string action)) p h = (action, p, ground arith, ground arith)

  -- An event is recorded exactly for a request whose action is a string among the administrative
  -- actions, while the logger is enabled.
  pub record_exchange_iff :
      (logger : AuditLogger) (x : Exchange)
      → ((e : AuditEvent V) × (recorded logger x ≡ some e)) ↔ (
          (action : Text) × (x.audit_action ≡ some (string action))
          × (logger.enabled ≡ true)
          × (contains admin_actions action ≡ true))
  unfolding record_exchange should_audit
  record_exchange_iff logger x = (
    λ (e, h).
        let (action, p, audited, _) = recorded-Reason logger x x.audit_action refl h in
        let (enabled, listed) =
          (should_audit_in-contains logger.enabled admin_actions action).0 audited in
        (action, p, enabled, listed),
    λ (action, p, enabled, listed).
        let audited : should_audit logger action ≡ true =
          (should_audit_in-contains logger.enabled admin_actions action).1 (enabled, listed) in
        (event_of to_lower trim of_string decode logger x action, ground (arith, audited)),
  )

  -- In the input of a recorded event, every key of the decoded body whose lower-case form contains one
  -- of the configured fields has the value ***REDACTED***; the values inside nested maps are not looked
  -- at. The success flag is a status below 400, and nothing is recorded of a body above the configured
  -- size.
  pub record_exchange-Masked :
      (logger : AuditLogger) (x : Exchange) {e : AuditEvent V}
      → recorded logger x ≡ some e
      → All (Hidden to_lower of_string logger.sensitive_fields) e.input
        × ((e.success ≡ true) ↔ (x.status_code < 400))
        × (logger.max_body_size <ℤ pos (length x.raw_body) → e.input ≡ [])
  record_exchange-Masked logger x h =
      let (action, _, _, same) = recorded-Reason logger x x.audit_action refl h in
      rw same (
        redact_fields-Hidden to_lower of_string logger.sensitive_fields _,
        ground arith,
        λ large. unfold redact_fields in ground arith,
      )
