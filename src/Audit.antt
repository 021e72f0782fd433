-- ===== src/Audit.antt =====
-- middleware/audit/audit.go: audit events, redaction, and which requests are recorded. The stores
-- are in the children. Not part of the repository and so parameters: the JSON decoder, the parser
-- and the printer of RFC 3339 times, and `strings.ToLower` (its Unicode tables).
pub mod InMemory
pub mod FileStore
pub mod Redaction
pub mod Recording
pub mod Events
pub mod Stores
pub mod Sanitizing
mod Tests
use gateway_a.Prelude.{
  ℕ, ℤ, pos, ltb, leb, leb_ℤ, length, any, Text, codes, Bool, true, false, ◌&&◌, Option, none, some,
  List, [], ◌∷◌, ◌++◌, if◌then◌else◌, ◌==◌, contains, text_contains, text_eq, nat_eq,
}

-- The output and the error of an event stay empty in this code, and are left out.
pub record AuditEvent (V : Type 0) : Type 0 where
  pub timestamp : Text
  pub request_id : Text
  pub user_id : Text
  pub ip_address : Text
  pub action : Text
  pub endpoint : Text
  pub method : Text
  pub status_code : ℕ
  pub success : Bool
  pub duration : ℤ
  pub metadata : List (Text × V)
  pub input : List (Text × V)

pub record AuditLogger : Type 0 where
  pub sensitive_fields : List Text
  pub max_body_size : ℤ
  pub enabled : Bool

abbrev pub default_sensitive_fields : List Text
default_sensitive_fields =
    codes "password" ∷ codes "api_key" ∷ codes "secret" ∷ codes "token" ∷ codes "authorization" ∷ []

-- DefaultOptions, for the fields that the logger keeps.
abbrev pub default_logger : AuditLogger
default_logger = record {
  sensitive_fields = default_sensitive_fields;
  max_body_size = pos 10240;
  enabled = true;
}

abbrev pub admin_actions : List Text
admin_actions =
    codes "create_tenant"
    ∷ codes "update_tenant"
    ∷ codes "delete_tenant"
    ∷ codes "create_api_key"
    ∷ codes "revoke_api_key"
    ∷ codes "update_api_key"
    ∷ codes "create_user"
    ∷ codes "update_user"
    ∷ codes "delete_user"
    ∷ codes "reset_password"
    ∷ codes "grant_permission"
    ∷ codes "revoke_permission"
    ∷ codes "update_config"
    ∷ codes "create_plugin"
    ∷ codes "delete_plugin"
    ∷ codes "enable_feature"
    ∷ codes "disable_feature"
    ∷ codes "approve_request"
    ∷ codes "reject_request"
    ∷ codes "suspend_user"
    ∷ []

-- The loop of ShouldAudit over the actions.
should_audit_in : Bool → List Text → Text → Bool
should_audit_in enabled [] action = false
should_audit_in enabled (a ∷ rest) action =
    if action == a then enabled else should_audit_in enabled rest action

unfoldable pub should_audit : AuditLogger → Text → Bool
unfolding should_audit_in
should_audit logger action = should_audit_in logger.enabled admin_actions action

-- The inner loop of redactFields.
unfoldable pub is_sensitive : List Text → Text → Bool
is_sensitive [] lower_key = false
is_sensitive (field ∷ rest) lower_key =
    if text_contains lower_key field then true else is_sensitive rest lower_key

module _ {V : Type 0} (to_lower : Text → Text) (of_string : Text → V) where
  abbrev pub redacted : V
  redacted = of_string (codes "***REDACTED***")

  -- redactFields, and the function SanitizeInput with the same body.
  unfoldable pub redact_fields : List Text → List (Text × V) → List (Text × V)
  redact_fields fields [] = []
  redact_fields fields ((key, value) ∷ rest) =
      (key, if is_sensitive fields (to_lower key) then redacted else value)
      ∷ redact_fields fields rest

-- A value that a handler stored in the context: a string, or something else.
pub data ContextValue : Type 0 where
  string : Text → ContextValue
  other : ContextValue

-- The request and the response as the middleware reads them after the handlers have run, with its
-- readings of the clock.
pub record Exchange : Type 0 where
  pub raw_body : Text
  pub status_code : ℕ
  pub audit_action : Option ContextValue
  pub user_id : Option ContextValue
  pub api_key : Option ContextValue
  pub authorization : Text
  pub client_ip : Text
  pub path : Text
  pub query : Text
  pub host : Text
  pub forwarded_proto : Text
  pub method : Text
  pub request_id : Text
  pub timestamp : Text
  pub duration : ℤ

abbrev string_or : Text → ContextValue → Text
string_or default (string s) = s
string_or default other = default

-- The user that the middleware records: a `user_id` that is not a string hides the `api_key`.
unfoldable pub recorded_user : Option ContextValue → Option ContextValue → Text
recorded_user (some u) key = string_or (codes "anonymous") u
recorded_user none (some k) = string_or (codes "anonymous") k
recorded_user none none = codes "anonymous"

-- The part of SplitN(header, " ", 2) after the first space, if there is one.
after_space : Text → Option Text
after_space [] = none
after_space (c ∷ rest) = if c == 32 then some rest else after_space rest

abbrev from_header : Option Text → Text
from_header none = codes "anonymous"
from_header (some token) = token

abbrev from_key : Option ContextValue → Text → Text
from_key (some (string k)) header = k
from_key _ header = from_header (after_space header)

-- ExtractUserFromContext.
unfoldable pub extract_user : Option ContextValue → Option ContextValue → Text → Text
unfolding after_space
extract_user (some (string u)) key header = u
extract_user _ key header = from_key key header

-- GetRequestURL.
unfoldable pub get_request_url : Exchange → Text
get_request_url x =
    let scheme = if x.forwarded_proto == codes "https" then codes "https" else codes "http" in
    let url = scheme ++ (codes "://" ++ (x.host ++ x.path)) in
    if x.query == [] then url else url ++ (codes "?" ++ x.query)

module _ {V : Type 0} (to_lower trim : Text → Text) (of_string : Text → V)
    (decode : Text → List (Text × V)) where
  -- The body is kept for decoding only up to the configured size.
  abbrev captured_input : AuditLogger → Text → List (Text × V)
  captured_input logger body =
      if ltb 0 (length body) && leb_ℤ (pos (length body)) logger.max_body_size
      then decode body
      else []

  abbrev pub event_of : AuditLogger → Exchange → Text → AuditEvent V
  event_of logger x action = record {
    timestamp = x.timestamp;
    request_id = x.request_id;
    user_id = recorded_user x.user_id x.api_key;
    ip_address = x.client_ip;
    action = action;
    endpoint = trim x.path ++ (codes "?" ++ x.query);
    method = x.method;
    status_code = x.status_code;
    success = ltb x.status_code 400;
    duration = x.duration;
    metadata = [];
    input =
        redact_fields to_lower of_string logger.sensitive_fields (captured_input logger x.raw_body);
  }

  -- What Middleware hands to the store after the handlers have run, if anything.
  unfoldable pub record_exchange : AuditLogger → Exchange → Option (AuditEvent V)
  record_exchange logger x = elim x.audit_action [
    | some (string action) ↦
        if should_audit logger action then some (event_of logger x action) else none
    | _ ↦ none
  ]
