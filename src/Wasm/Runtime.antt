-- ===== src/Wasm/Runtime.antt =====
-- wasm/plugin.go: the runtime that loads plugins and caches their compiled modules. The file system
-- and wazero (github.com/tetratelabs/wazero) are not part of the repository: `Host` says what they
-- do during one call, and `M` is the type of compiled modules. The map of metadata and that of modules
-- are association lists; the iteration over a map takes their order.
pub mod Loading
pub mod Laws
pub mod Disabled
use gateway_a.Prelude.{
  Text, text_eq, codes, Bool, true, false, Option, none, some, List, [], ◌∷◌, ◌++◌, ◌==◌, map,
  contains, lookup, insert, delete, has_prefix, if◌then◌else◌, Error, message, wrapped, Result, ok,
  err, not, leb, length, drop, take, ◌-◌, ◌&&◌,
}
use gateway_a.Wasm.{
  PluginInput, PluginOutput, ErrorInput, ErrorOutput, Plugin, RequestHook, ResponseHook, ErrorHook,
  add, execute_on_request,
}

pub record PluginMetadata : Type 0 where
  pub name : Text
  pub version : Text
  pub hooks : List Text
  pub path : Text

pub record Host (M : Type 0) : Type 0 where
  -- filepath.Join
  pub join : Text → Text → Text
  pub read_file : Text → Result Text
  pub compile_module : Text → Result M
  -- InstantiateModule
  pub instantiate_module : M → Option Error
  -- the names of the exported functions
  pub exported_functions : M → List Text
  -- the names of the files of a directory, with what IsDir says of each
  pub read_dir : Text → Result (List (Text × Bool))

pub record Runtime (M : Type 0) : Type 0 where
  pub plugins : List (Text × M)
  pub metadata : List (Text × PluginMetadata)
  pub plugin_dir : Text

-- NewRuntime, once the directory exists.
abbrev or_directory : Text → Text
or_directory [] = codes "./plugins"
or_directory (c ∷ dir) = c ∷ dir

abbrev pub new_runtime : {M : Type 0} → Text → Runtime M
new_runtime dir = record { plugins = []; metadata = []; plugin_dir = or_directory dir }

abbrev pub plugin_not_found : Error
plugin_not_found = message (codes "plugin not found")

abbrev missing_export : Error
missing_export = message (codes "plugin missing required export")

abbrev pub disabled : Error
disabled =
    message
      (codes "WASM plugin execution temporarily disabled for safety (memory protocol incomplete)")

-- The hook that an exported function is known by.
abbrev hook_name : Text → Option Text
hook_name exp =
    if exp == codes "on_request"
    then some (codes "OnRequest")
    else if exp == codes "on_response"
    then some (codes "OnResponse")
    else if exp == codes "on_error"
    then some (codes "OnError")
    else none

abbrev put_first : Option Text → List Text → List Text
put_first none hooks = hooks
put_first (some h) hooks = h ∷ hooks

unfoldable hook_names : List Text → List Text
hook_names [] = []
hook_names (exp ∷ rest) = put_first (hook_name exp) (hook_names rest)

module _ {V : Type 0} where
  -- callOnRequest and callOnError.
  abbrev pub call_on_request : RequestHook V
  call_on_request input = (input, err disabled)

  abbrev pub call_on_error : ErrorHook V
  call_on_error input = err disabled

-- callOnResponse
abbrev pub call_on_response : ResponseHook
call_on_response output = err disabled

abbrev pub given : {A : Type 0} → Bool → A → Option A
given true a = some a
given false a = none

module _ {V : Type 0} where
  -- The plugin of a module with these exports.
  abbrev pub plugin_of : List Text → Plugin V
  plugin_of exports = record {
    on_request = given (contains exports (codes "on_request")) call_on_request;
    on_response = given (contains exports (codes "on_response")) call_on_response;
    on_error = given (contains exports (codes "on_error")) call_on_error;
  }

abbrev has_hook : List Text → Bool
has_hook exports =
    if contains exports (codes "on_request")
    then true
    else if contains exports (codes "on_response")
    then true
    else contains exports (codes "on_error")

module _ {V : Type 0} where
  abbrev pub checked : List Text → Result (Plugin V)
  checked exports = if has_hook exports then ok (plugin_of exports) else err missing_export

abbrev pub metadata_result : Option PluginMetadata → Result PluginMetadata
metadata_result (some m) = ok m
metadata_result none = err plugin_not_found

module _ {M : Type 0} where
  abbrev pub path_of : Host M → Runtime M → Text → Text
  path_of host r name = host.join r.plugin_dir (name ++ codes ".wasm")

  -- extractMetadata: what is stored under the name.
  unfoldable pub metadata_of : Host M → Runtime M → Text → M → PluginMetadata
  unfolding hook_names
  metadata_of host r name compiled = record {
    name = name;
    version = codes "unknown";
    hooks = hook_names (host.exported_functions compiled);
    path = path_of host r name;
  }

  -- The stores of a compiled module and of its metadata.
  abbrev pub cached : Host M → Runtime M → Text → M → Runtime M
  cached host r name compiled = record r {
    plugins = insert name compiled r.plugins;
    metadata = insert name (metadata_of host r name compiled) r.metadata;
  }

  -- GetMetadata
  unfoldable pub get_metadata : Text → Runtime M → Result PluginMetadata
  get_metadata name r = metadata_result (lookup name r.metadata)

  -- ListPlugins; Go leaves the order of a map open.
  abbrev pub list_plugins : Runtime M → List PluginMetadata
  list_plugins r = map (λ entry. entry.1) r.metadata

  -- UnloadPlugin
  unfoldable pub unload_plugin : Text → Runtime M → Runtime M
  unload_plugin name r = record r {
    plugins = delete name r.plugins;
    metadata = delete name r.metadata;
  }

module _ {M V : Type 0} where
  abbrev pub instantiated : Host M → M → Text → Option Error → Result (Plugin V)
  instantiated host compiled name (some e) =
      err (wrapped (codes "failed to instantiate plugin " ++ (name ++ codes ": ")) e)
  instantiated host compiled name none = checked (host.exported_functions compiled)

  -- instantiatePlugin
  unfoldable pub instantiate_plugin : Host M → M → Text → Result (Plugin V)
  instantiate_plugin host compiled name =
      instantiated host compiled name (host.instantiate_module compiled)

  abbrev pub compiled_result : Host M → Runtime M → Text → Result M → Runtime M × Result (Plugin V)
  compiled_result host r name (err e) =
      (r, err (wrapped (codes "failed to compile plugin " ++ (name ++ codes ": ")) e))
  compiled_result host r name (ok compiled) =
      (cached host r name compiled, instantiate_plugin host compiled name)

  abbrev pub file_result : Host M → Runtime M → Text → Result Text → Runtime M × Result (Plugin V)
  file_result host r name (err e) = (
    r,
    err (wrapped (codes "failed to read plugin file " ++ (path_of host r name ++ codes ": ")) e),
  )
  file_result host r name (ok file) = compiled_result host r name (host.compile_module file)

  abbrev pub from_cache : Host M → Runtime M → Text → Option M → Runtime M × Result (Plugin V)
  from_cache host r name (some compiled) = (r, instantiate_plugin host compiled name)
  from_cache host r name none = file_result host r name (host.read_file (path_of host r name))

  -- LoadPlugin, and loadPluginLocked.
  unfoldable pub load_plugin : Host M → Text → Runtime M → Runtime M × Result (Plugin V)
  unfolding metadata_of instantiate_plugin
  load_plugin host name r = from_cache host r name (lookup name r.plugins)
