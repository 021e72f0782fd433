-- ===== src/Wasm/Tests.antt =====
-- The theorems on the plugin chain at a chain of an authentication and a tagging plugin.
use gateway_a.Prelude.{
  Text, text_eq, codes, Bool, true, false, Option, none, some, [], ◌∷◌, Result, ok, err, message,
  List, ◌++◌, lookup, insert, delete, contains, ◌≡◌, ap, sym, ◌∙◌, inr, refl, ◌≢◌, text_beq,
  text_beq_iff,
}
use gateway_a.Wasm.{
  ResponseHook, PluginInput, PluginOutput, ErrorInput, ErrorOutput, RequestHook, Plugin, new_plugin,
  execute_on_request,
}
use gateway_a.Wasm.Runtime.{
  PluginMetadata, Host, Runtime, new_runtime, load_plugin, get_metadata, unload_plugin,
  plugin_not_found, plugin_of, instantiate_plugin,
}
use gateway_a.Wasm.Runtime.Laws.{Call, loads, loads_all, unloads, run_calls, run_calls-get_metadata}
use gateway_a.Wasm.Chain.{early, Continues, Silent, execute_on_request-halt}

abbrev as_value : Text → Text
as_value s = s

abbrev input : PluginInput Text
input = record {
  method = codes "POST";
  url = codes "/v1/chat";
  headers = [];
  body = codes "{}";
  tenant_id = codes "t1";
  api_key = codes "k1";
  context = none;
}

abbrev output : Bool → PluginOutput
output continue = record {
  status = 401;
  headers = [];
  body = codes "no";
  metadata = (codes "tier", codes "gold") ∷ [];
  continue = continue;
}

abbrev deny : RequestHook Text
deny i = (i, ok (some (output false)))

abbrev tag : RequestHook Text
tag i = (i, ok (some (output true)))

abbrev with_request : RequestHook Text → Plugin Text
with_request hook = record new_plugin { on_request = some hook }

execute_on_request-halt_example :
    execute_on_request as_value (with_request tag ∷ with_request deny ∷ with_request tag ∷ []) input
    ≡ execute_on_request as_value (with_request tag ∷ with_request deny ∷ []) input
execute_on_request-halt_example =
    execute_on_request-halt as_value (with_request tag ∷ []) (with_request deny)
      (with_request tag ∷ []) deny input refl (λ i. early (output false) refl)

-- A response hook that goes on.
abbrev pass_on : PluginOutput → Result (Option PluginOutput)
pass_on o = ok (some (record o { continue = true; body = codes "changed" }))

abbrev with_response : Plugin Text
with_response = record new_plugin { on_response = some pass_on }

-- Whether an answer says to continue, and a hook's answer to a response.
abbrev continues : Result (Option PluginOutput) → Bool
continues (ok (some o)) = o.continue
continues _ = true

abbrev answer : PluginOutput → Option ResponseHook → Result (Option PluginOutput)
answer o none = ok none
answer o (some hook) = hook o

with_response-Continues : Continues with_response
with_response-Continues hook o p e r =
    sym (ap continues r) ∙ sym (ap (λ h. continues (answer o h)) e)

abbrev error_input : ErrorInput Text
error_input = record {
  plugin_input = input;
  error_code = codes "500";
  error_message = codes "boom";
}

abbrev silent : ErrorInput Text → Result (Option ErrorOutput)
silent i = ok none

abbrev failing : ErrorInput Text → Result (Option ErrorOutput)
failing i = err (message (codes "trap"))

abbrev with_error : (ErrorInput Text → Result (Option ErrorOutput)) → Plugin Text
with_error hook = record new_plugin { on_error = some hook }

with_error-Silent : Silent error_input (with_error silent)
with_error-Silent = inr (silent, refl, refl)

-- A host on which every file is a module that exports the hook of a request.
abbrev host : Host Text
host = record {
  join = λ dir file. dir ++ (b'/' ∷ file);
  read_file = λ path. ok path;
  compile_module = λ file. ok file;
  instantiate_module = λ m. none;
  exported_functions = λ m. codes "on_request" ∷ [];
  read_dir = λ dir. ok [];
}

abbrev calls : List (Call Text)
calls = loads host (codes "auth") ∷ unloads (codes "auth") ∷ []

abbrev after_calls : Runtime Text
after_calls = run_calls Text calls (new_runtime [])

abbrev after_load : Runtime Text
after_load = (load_plugin {V = Text} host (codes "auth") after_calls).0

-- Another plugin is loaded and unloaded, and the directory is loaded.
abbrev later : List (Call Text)
later = loads host (codes "log") ∷ unloads (codes "log") ∷ loads_all host ∷ []

log-ne_auth : codes "log" ≢ codes "auth"
log-ne_auth e =
    let equal : text_beq (codes "log") (codes "auth") ≡ true =
      (text_beq_iff (codes "log") (codes "auth")).1 e in
    cc equal

run_calls-get_metadata_example :
    ((d : PluginMetadata) × (get_metadata (codes "auth") (run_calls Text later after_load) ≡ ok d)
      × (d.name ≡ codes "auth"))
    × (get_metadata (codes "auth") (unload_plugin (codes "auth") (run_calls Text later after_load))
        ≡ err plugin_not_found)
unfolding load_plugin unload_plugin instantiate_plugin lookup insert delete contains
run_calls-get_metadata_example =
    run_calls-get_metadata Text [] (codes "auth") calls later host
      (plugin_of (codes "on_request" ∷ [])) (tt, (log-ne_auth, (tt, tt))) refl
