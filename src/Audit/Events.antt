-- ===== src/Audit/Events.antt =====
-- CreateEvent, ExtractRequestDetails and createStore of middleware/audit/audit.go.
use gateway_a.Prelude.{
  ℕ, ltb, ℤ, pos, length, Text, text_eq, codes, Bool, true, Option, none, some, List, [], ◌∷◌, ◌++◌,
  if◌then◌else◌, ◌==◌, ◌≡◌, ◌⊎◌, inl, inr, refl,
}
use gateway_a.Audit.{
  AuditEvent, AuditLogger, ContextValue, string, other, Exchange, default_sensitive_fields,
  recorded_user, redact_fields,
}
use gateway_a.Audit.InMemory.{InMemoryAuditStore, new_in_memory}
use gateway_a.Audit.FileStore.{FileAuditStore, new_file_store}

-- The user of a created event, which is empty where the middleware records "anonymous".
abbrev string_or_empty : ContextValue → Text
string_or_empty (string s) = s
string_or_empty other = []

unfoldable pub created_user : Option ContextValue → Option ContextValue → Text
created_user (some u) key = string_or_empty u
created_user none (some k) = string_or_empty k
created_user none none = []

module _ {V : Type 0} where
  abbrev pub blank_event :
      (timestamp request_id action : Text) → Bool → List (Text × V) → AuditEvent V
  blank_event timestamp request_id action success metadata = record {
    timestamp = timestamp;
    request_id = request_id;
    user_id = [];
    ip_address = [];
    action = action;
    endpoint = [];
    method = [];
    status_code = 0;
    success = success;
    duration = pos 0;
    metadata = metadata;
    input = [];
  }

  -- CreateEvent; a nil request context is `none`, and `trim` is strings.TrimSpace.
  unfoldable pub create_event :
      (trim : Text → Text) (timestamp request_id : Text)
      → Option Exchange
      → (action : Text) → Bool
      → List (Text × V)
      → AuditEvent V
  unfolding created_user
  create_event trim timestamp request_id none action success metadata =
      blank_event timestamp request_id action success metadata
  create_event trim timestamp request_id (some x) action success metadata =
      record (blank_event timestamp request_id action success metadata) {
        ip_address = x.client_ip;
        endpoint = trim x.path ++ (codes "?" ++ x.query);
        method = x.method;
        user_id = created_user x.user_id x.api_key;
      }

-- A created event names the user that the middleware would record, except that it names none where
-- that is "anonymous".
pub created_user-recorded_user :
    (u k : Option ContextValue)
    → (created_user u k ≡ recorded_user u k)
      ⊎ ((created_user u k ≡ []) × (recorded_user u k ≡ codes "anonymous"))
unfolding created_user recorded_user
created_user-recorded_user (some (string s)) k = inl refl
created_user-recorded_user (some other) k = inr (refl, refl)
created_user-recorded_user none (some (string s)) = inl refl
created_user-recorded_user none (some other) = inr (refl, refl)
created_user-recorded_user none none = inr (refl, refl)

abbrev pub detail_words : List Text
detail_words = codes "password" ∷ codes "secret" ∷ codes "token" ∷ []

module _ {V : Type 0} (to_lower : Text → Text) (of_string : Text → V) where
  abbrev masked : Option (List (Text × V)) → Option (List (Text × V))
  masked none = none
  masked (some input) = some (redact_fields to_lower of_string detail_words input)

  -- ExtractRequestDetails: `decode` gives no map where the body holds no object.
  unfoldable pub extract_request_details :
      (decode : Text → Option (List (Text × V))) → Exchange → Text × Option (List (Text × V))
  extract_request_details decode x =
      (x.method, masked (if ltb 0 (length x.raw_body) then decode x.raw_body else none))

-- The options of a logger.
pub record Options : Type 0 where
  pub store_type : Text
  pub file_path : Text
  pub buffer_size : ℕ
  pub max_body_size : ℤ
  pub sensitive_fields : List Text
  pub enabled : Bool

abbrev pub default_options : Options
default_options = record {
  store_type = codes "memory";
  file_path = codes "/tmp/audit-logs.json";
  buffer_size = 1000;
  max_body_size = pos 10240;
  sensitive_fields = default_sensitive_fields;
  enabled = true;
}

-- The stores; that of a database keeps nothing.
pub data AuditStore (V : Type 0) : Type 0 where
  file : (path : Text) → FileAuditStore V → AuditStore V
  database : (enabled : Bool) → AuditStore V
  memory : InMemoryAuditStore V → AuditStore V

module _ {V : Type 0} where
  unfoldable pub create_store : Options → AuditStore V
  create_store o =
      if o.store_type == codes "file"
      then file o.file_path (new_file_store o.buffer_size)
      else if o.store_type == codes "database"
      then database true
      else memory (new_in_memory (pos 10000))

  -- NewAuditLogger.
  abbrev pub new_audit_logger : Options → AuditLogger × AuditStore V
  new_audit_logger o = (
    record {
      sensitive_fields = o.sensitive_fields;
      max_body_size = o.max_body_size;
      enabled = o.enabled;
    },
    create_store o,
  )
