-- ===== src/Wasm/Exports.antt =====
-- wasm/exports.go: the functions that the gateway offers to plugins, by their default
-- implementations. The Go context holds at most one input and one output, both by pointer; an
-- interface value is a `V`, of which `as_string` is the type assertion to a string. `log` prints.
pub mod Laws
mod Tests
use gateway_a.Prelude.{
  ℤ, Text, text_eq, codes, Bool, true, false, ◌&&◌, ◌||◌, Option, none, some, List, [], ◌∷◌, any,
  all, insert, lookup, String, Result,
}
use gateway_a.Wasm.{PluginInput, PluginOutput}

pub record HostContext (V : Type 0) : Type 0 where
  pub input : Option (PluginInput V)
  pub output : Option PluginOutput

-- A call of a host function, and what it returns.
pub data HostCall : Type 0 where
  log : (level message : Text) → HostCall
  get_header : (name : Text) → HostCall
  set_header : (name value : Text) → HostCall
  get_body : HostCall
  set_body : Text → HostCall
  get_metadata : (key : Text) → HostCall
  set_metadata : (key value : Text) → HostCall
  get_tenant get_api_key : HostCall
  validate_api_key : Text → HostCall
  rate_limit : (tenant : Text) (limit : ℤ) → HostCall

pub data HostReply : Type 0 where
  nothing : HostReply
  text : Text → HostReply
  truth : Bool → HostReply

abbrev pub or_empty : Option Text → Text
or_empty none = []
or_empty (some s) = s

abbrev pub header_set : Text → Text → Option PluginOutput → Option PluginOutput
header_set name value none = none
header_set name value (some o) = some (record o { headers = insert name value o.headers })

abbrev pub body_set : Text → Option PluginOutput → Option PluginOutput
body_set body none = none
body_set body (some o) = some (record o { body = body })

module _ {V : Type 0} where
  -- ContextWithPluginInput and ContextWithPluginOutput.
  abbrev pub with_input : PluginInput V → HostContext V → HostContext V
  with_input i c = record c { input = some i }

  abbrev pub with_output : PluginOutput → HostContext V → HostContext V
  with_output o c = record c { output = some o }

  -- A getter of the input.
  abbrev pub of_input : (PluginInput V → Text) → Option (PluginInput V) → HostReply
  of_input f none = text []
  of_input f (some i) = text (f i)

  abbrev pub header_value : Text → PluginInput V → Text
  header_value name i = or_empty (lookup name i.headers)

  abbrev pub entries : Option (List (Text × V)) → List (Text × V)
  entries none = []
  entries (some m) = m

  abbrev pub metadata_set :
      (Text → V) → Text → Text → Option (PluginInput V) → Option (PluginInput V)
  metadata_set of_string key value none = none
  metadata_set of_string key value (some i) =
      some (record i { context = some (insert key (of_string value) (entries i.context)) })

  module _ (as_string : V → Option Text) where
    abbrev pub string_of : Option V → Text
    string_of none = []
    string_of (some v) = or_empty (as_string v)

    abbrev pub metadata_value : Text → PluginInput V → Text
    metadata_value key i = string_of (lookup key (entries i.context))

  module _ (of_string : Text → V) (as_string : V → Option Text) where
    unfoldable pub host_call : HostCall → HostContext V → HostContext V × HostReply
    host_call (log level message) c = (c, nothing)
    host_call (get_header name) c = (c, of_input (header_value name) c.input)
    host_call (set_header name value) c =
        (record c { output = header_set name value c.output }, nothing)
    host_call get_body c = (c, of_input (λ i. i.body) c.input)
    host_call (set_body body) c = (record c { output = body_set body c.output }, nothing)
    host_call (get_metadata key) c = (c, of_input (metadata_value as_string key) c.input)
    host_call (set_metadata key value) c =
        (record c { input = metadata_set of_string key value c.input }, nothing)
    host_call get_tenant c = (c, of_input (λ i. i.tenant_id) c.input)
    host_call get_api_key c = (c, of_input (λ i. i.api_key) c.input)
    host_call (validate_api_key key) c = (c, truth true)
    host_call (rate_limit tenant limit) c = (c, truth true)

    -- A plugin's calls, one after another.
    unfoldable pub host_calls : List HostCall → HostContext V → HostContext V
    unfolding host_call
    host_calls [] c = c
    host_calls (call ∷ calls) c = host_calls calls (host_call call c).0

-- The Go types of the parameters and results of the exported functions, less the context.
pub data Kind : Type 0 where
  go_string go_bytes go_bool go_int : Kind
  -- int32, uint32, int64, uint64, float32 and float64
  numeric : Kind

pub record HostFunction : Type 0 where
  pub name : String
  pub params : List Kind
  pub results : List Kind

abbrev function : String → List Kind → List Kind → HostFunction
function name params results = record { name = name; params = params; results = results }

-- The functions that ExportToWASM gives to the builder of a host module.
abbrev pub exported : List HostFunction
exported =
    function "log" (go_string ∷ go_string ∷ []) []
    ∷ function "get_header" (go_string ∷ []) (go_string ∷ [])
    ∷ function "set_header" (go_string ∷ go_string ∷ []) []
    ∷ function "get_body" [] (go_bytes ∷ [])
    ∷ function "set_body" (go_bytes ∷ []) []
    ∷ function "get_metadata" (go_string ∷ []) (go_string ∷ [])
    ∷ function "set_metadata" (go_string ∷ go_string ∷ []) []
    ∷ function "get_tenant" [] (go_string ∷ [])
    ∷ function "get_api_key" [] (go_string ∷ [])
    ∷ function "validate_api_key" (go_string ∷ []) (go_bool ∷ [])
    ∷ function "rate_limit" (go_string ∷ go_int ∷ []) (go_bool ∷ [])
    ∷ []

abbrev pub is_numeric : Kind → Bool
is_numeric numeric = true
is_numeric _ = false

abbrev pub is_supported : HostFunction → Bool
is_supported f = all is_numeric f.params && all is_numeric f.results

-- ExportToWASM; `instantiate` is what wazero makes of the functions of a module.
unfoldable pub export_to_wasm :
    {M : Type 0} → (instantiate : List HostFunction → Result M) → Result M
export_to_wasm instantiate = instantiate exported
