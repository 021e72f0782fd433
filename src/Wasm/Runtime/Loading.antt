-- ===== src/Wasm/Runtime/Loading.antt =====
-- wasm/plugin.go: LoadPluginsFromDir and ExecuteChain, which load several plugins.
use gateway_a.Prelude.{
  Text, text_eq, codes, Bool, Option, List, [], ◌∷◌, ◌++◌, ◌==◌, insert, if◌then◌else◌, wrapped,
  Result, ok, err, leb, length, drop, take, ◌-◌, ◌&&◌,
}
use gateway_a.Wasm.{PluginInput, PluginOutput, Plugin, add, execute_on_request}
use gateway_a.Wasm.Runtime.{Host, Runtime, load_plugin}

-- strings.HasSuffix and strings.TrimSuffix
abbrev pub has_suffix : Text → Text → Bool
has_suffix s suffix =
    leb (length suffix) (length s) && (drop (length s - length suffix) s == suffix)

abbrev pub trim_suffix : Text → Text → Text
trim_suffix s suffix = if has_suffix s suffix then take (length s - length suffix) s else s

-- What the loop of LoadPluginsFromDir keeps of a plugin.
abbrev pub kept :
    {V : Type 0} → Text → Result (Plugin V) → List (Text × Plugin V) → List (Text × Plugin V)
kept name (ok plugin) plugins = insert name plugin plugins
kept name (err e) plugins = plugins

module _ {M V : Type 0} where
  -- The loop of LoadPluginsFromDir over the entries of the directory.
  unfoldable pub load_entries :
      Host M
      → List (Text × Bool)
      → List (Text × Plugin V)
      → Runtime M
      → Runtime M × List (Text × Plugin V)
  unfolding load_plugin
  load_entries host [] plugins r = (r, plugins)
  load_entries host ((file, is_dir) ∷ entries) plugins r =
      let name = trim_suffix file (codes ".wasm") in
      let after = load_plugin host name r in
      let skipped = load_entries host entries plugins r in
      let loaded = load_entries host entries (kept name after.1 plugins) after.0 in
      if is_dir then skipped else if has_suffix file (codes ".wasm") then loaded else skipped

  abbrev pub directory_result :
      Host M → Runtime M → Result (List (Text × Bool)) → Runtime M × Result (List (Text × Plugin V))
  directory_result host r (err e) = (r, err (wrapped (codes "failed to read plugin directory: ") e))
  directory_result host r (ok entries) =
      let (after, plugins) = load_entries host entries [] r in (after, ok plugins)

  -- LoadPluginsFromDir
  unfoldable pub load_plugins_from_dir :
      Host M → Runtime M → Runtime M × Result (List (Text × Plugin V))
  unfolding load_entries
  load_plugins_from_dir host r = directory_result host r (host.read_dir r.plugin_dir)

  module _ (of_string : Text → V) where
    abbrev pub run_chain :
        PluginInput V
        → Runtime M × Result (List (Plugin V))
        → Runtime M × (PluginInput V × Result (Option PluginOutput))
    run_chain input (r, err e) = (r, (input, err e))
    run_chain input (r, ok plugins) = (r, execute_on_request of_string plugins input)

    abbrev pub loaded :
        Text
        → List (Plugin V)
        → Runtime M × Result (Plugin V)
        → Runtime M × Result (List (Plugin V))
    loaded name chain (r, err e) =
        (r, err (wrapped (codes "failed to load plugin " ++ (name ++ codes ": ")) e))
    loaded name chain (r, ok plugin) = (r, ok (add chain plugin))

    abbrev pub load_next :
        (List (Plugin V) → Runtime M → Runtime M × Result (List (Plugin V)))
        → Runtime M × Result (List (Plugin V))
        → Runtime M × Result (List (Plugin V))
    load_next go_on (r, err e) = (r, err e)
    load_next go_on (r, ok chain) = go_on chain r

    -- The loop of ExecuteChain, each load with what the host does during it.
    unfoldable pub load_loop :
        List (Host M × Text) → List (Plugin V) → Runtime M → Runtime M × Result (List (Plugin V))
    unfolding load_plugin
    load_loop [] chain r = (r, ok chain)
    load_loop ((host, name) ∷ names) chain r =
        load_next (load_loop names) (loaded name chain (load_plugin host name r))

    -- ExecuteChain: also the input as the chain leaves it.
    unfoldable pub execute_chain :
        List (Host M × Text)
        → PluginInput V
        → Runtime M
        → Runtime M × (PluginInput V × Result (Option PluginOutput))
    unfolding load_loop execute_on_request
    execute_chain names input r = run_chain input (load_loop names [] r)
