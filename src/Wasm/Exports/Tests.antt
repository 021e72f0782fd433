-- ===== src/Wasm/Exports/Tests.antt =====
-- The theorems on the host functions for plugins at a concrete context.
use gateway_a.Prelude.{
  arith, ℕ, Text, text_eq, codes, true, false, none, some, List, [], ◌∷◌, all, Error, message,
  Result, ok, err, ◌≡◌, refl, if◌then◌else◌,
}
use gateway_a.Wasm.{PluginInput}
use gateway_a.Wasm.Exports.{
  HostContext, HostCall, get_metadata, set_metadata, set_header, set_body, text, host_call,
  host_calls, HostFunction, is_supported,
}
use gateway_a.Wasm.Exports.Laws.{host_calls-get_metadata}

abbrev same : Text → Text
same s = s

abbrev input : PluginInput Text
input = record {
  method = codes "GET";
  url = codes "/";
  headers = (codes "Accept", codes "*/*") ∷ [];
  body = [];
  tenant_id = codes "7";
  api_key = codes "sk";
  context = none;
}

abbrev context : HostContext Text
context = record {
  input = some input;
  output = some (record { status = 200; headers = []; body = []; metadata = []; continue = true });
}

abbrev calls : List HostCall
calls =
    set_header (codes "Accept") (codes "text/html")
    ∷ set_metadata (codes "user") (codes "b")
    ∷ set_body (codes "denied")
    ∷ []

host_calls-get_metadata_example :
    (host_call same some (get_metadata (codes "role")) (
      host_calls same some calls
        (host_call same some (set_metadata (codes "role") (codes "admin")) context).0)).1
    ≡ text (codes "admin")
host_calls-get_metadata_example =
    host_calls-get_metadata same some (codes "role") (codes "admin") calls context input refl refl
      (tt, ((λ e. ground (arith, e)), (tt, tt)))

-- A runtime that takes modules of numeric functions only.
abbrev instantiate : List HostFunction → Result ℕ
instantiate fs =
    if all is_supported fs then ok 1 else err (message (codes "unsupported type: string"))

refuses :
    (fs : List HostFunction) → all is_supported fs ≡ false → (e : Error) × (instantiate fs ≡ err e)
refuses fs h = (message (codes "unsupported type: string"), rw h refl)
