-- ===== src/Wasm/Runtime/Laws.antt =====
-- What the runtime of wasm/plugin.go keeps of the plugins that it loads.
use gateway_a.Prelude.{
  Text, text_eq, codes, Bool, true, false, Option, none, some, List, [], ◌∷◌, ◌==◌, lookup,
  lookup-insert, lookup-delete, if◌then◌else◌, if-both, Result, ok, err, ◌≡◌, refl, ap, ◌∙◌, arith,
  beq_refl, All, Bool-cases, inl, inr, ◌≢◌,
}
use gateway_a.Wasm.{Plugin}
use gateway_a.Wasm.Runtime.{
  Host, Runtime, PluginMetadata, new_runtime, load_plugin, get_metadata, unload_plugin,
  metadata_result, cached, metadata_of, from_cache, file_result, compiled_result, plugin_not_found,
}
use gateway_a.Wasm.Runtime.Loading.{
  kept, directory_result, has_suffix, trim_suffix, load_entries, load_plugins_from_dir,
}

-- What is kept under one name: a module exactly where there is metadata, which has that name.
abbrev Entry : {M : Type 0} → Text → Option M → Option PluginMetadata → Type 0
Entry name none none = Unit
Entry name (some m) (some d) = d.name ≡ name
Entry name _ _ = ⊥

abbrev pub IsPaired : {M : Type 0} → Runtime M → Type 0
IsPaired r = (name : Text) → Entry name (lookup name r.plugins) (lookup name r.metadata)

Entry-if :
    {M : Type 0} (other : Text) (b : Bool) (m : M) (d : PluginMetadata) (x : Option M)
    (y : Option PluginMetadata)
    → (b ≡ true → d.name ≡ other)
    → Entry other x y
    → Entry other (if b then some m else x) (if b then some d else y)
Entry-if other true m d x y h e = h refl
Entry-if other false m d x y h e = e

Entry-unless :
    {M : Type 0} (other : Text) (b : Bool) (x : Option M) (y : Option PluginMetadata)
    → Entry other x y
    → Entry other (if b then none else x) (if b then none else y)
Entry-unless other true x y e = tt
Entry-unless other false x y e = e

module _ {M : Type 0} where
  cached-IsPaired :
      (host : Host M) (r : Runtime M) (name : Text) (compiled : M)
      → IsPaired r
      → IsPaired (cached host r name compiled)
  unfolding metadata_of
  cached-IsPaired host r name compiled p other =
      rw
        (
          lookup-insert name other compiled r.plugins,
          lookup-insert name other (metadata_of host r name compiled) r.metadata,
        )
        (Entry-if other (name == other) compiled (metadata_of host r name compiled) _ _
          (text_eq.beq_iff name other).0 (p other))

  unload_plugin-IsPaired :
      (name : Text) (r : Runtime M) → IsPaired r → IsPaired (unload_plugin name r)
  unfolding unload_plugin
  unload_plugin-IsPaired name r p other =
      rw (lookup-delete name other r.plugins, lookup-delete name other r.metadata)
        (Entry-unless other (name == other) _ _ (p other))

new_runtime-IsPaired : (M : Type 0) (dir : Text) → IsPaired (new_runtime {M = M} dir)
unfolding lookup
new_runtime-IsPaired M dir name = tt

-- The calls of a runtime, each with what the host does during it.
pub data Call (M : Type 0) : Type 0 where
  loads : Host M → Text → Call M
  loads_all : Host M → Call M
  unloads : Text → Call M

-- A property of a runtime that the stores of a compiled module keep is kept by all loading.
module _ {M : Type 0} (V : Type 0) (I : Runtime M → Type 0)
    (keeps : (host : Host M) (r : Runtime M) (name : Text) (m : M)
      → I r
      → I (cached host r name m)) where
  compiled_result-keeps :
      (host : Host M) (r : Runtime M) (name : Text) (o : Result M)
      → I r
      → I (compiled_result {V = V} host r name o).0
  compiled_result-keeps host r name (err e) p = p
  compiled_result-keeps host r name (ok m) p = keeps host r name m p

  file_result-keeps :
      (host : Host M) (r : Runtime M) (name : Text) (o : Result Text)
      → I r
      → I (file_result {V = V} host r name o).0
  file_result-keeps host r name (err e) p = p
  file_result-keeps host r name (ok file) p = compiled_result-keeps host r name _ p

  from_cache-keeps :
      (host : Host M) (r : Runtime M) (name : Text) (o : Option M)
      → I r
      → I (from_cache {V = V} host r name o).0
  from_cache-keeps host r name none p = file_result-keeps host r name _ p
  from_cache-keeps host r name (some m) p = p

  load_plugin-keeps :
      (host : Host M) (name : Text) (r : Runtime M) → I r → I (load_plugin {V = V} host name r).0
  unfolding load_plugin
  load_plugin-keeps host name r p = from_cache-keeps host r name _ p

  load_entries-keeps :
      (host : Host M) (entries : List (Text × Bool)) (plugins : List (Text × Plugin V))
      (r : Runtime M)
      → I r
      → I (load_entries host entries plugins r).0
  unfolding load_entries
  load_entries-keeps host [] plugins r p = p
  load_entries-keeps host ((file, is_dir) ∷ entries) plugins r p =
      let name = trim_suffix file (codes ".wasm") in
      let after = load_plugin {V = V} host name r in
      let skipped = load_entries-keeps host entries plugins r p in
      let loaded =
        load_entries-keeps host entries (kept name after.1 plugins) after.0
          (load_plugin-keeps host name r p) in
      if-both (λ (x : Runtime M × List (Text × Plugin V)). I x.0) is_dir _ _ skipped
        (if-both (λ (x : Runtime M × List (Text × Plugin V)). I x.0)
          (has_suffix file (codes ".wasm")) _ _ loaded skipped)

  directory_result-keeps :
      (host : Host M) (r : Runtime M) (o : Result (List (Text × Bool)))
      → I r
      → I (directory_result {V = V} host r o).0
  directory_result-keeps host r (err e) p = p
  directory_result-keeps host r (ok entries) p = load_entries-keeps host entries [] r p

  load_plugins_from_dir-keeps :
      (host : Host M) (r : Runtime M) → I r → I (load_plugins_from_dir {V = V} host r).0
  unfolding load_plugins_from_dir
  load_plugins_from_dir-keeps host r p =
      directory_result-keeps host r (host.read_dir r.plugin_dir) p

module _ {M : Type 0} (V : Type 0) where
  abbrev run_call : Call M → Runtime M → Runtime M
  run_call (loads host name) r = (load_plugin {V = V} host name r).0
  run_call (loads_all host) r = (load_plugins_from_dir {V = V} host r).0
  run_call (unloads name) r = unload_plugin name r

  abbrev pub run_calls : List (Call M) → Runtime M → Runtime M
  run_calls [] r = r
  run_calls (c ∷ calls) r = run_calls calls (run_call c r)

  run_call-IsPaired : (c : Call M) (r : Runtime M) → IsPaired r → IsPaired (run_call c r)
  run_call-IsPaired (loads host name) r p =
      load_plugin-keeps V IsPaired cached-IsPaired host name r p
  run_call-IsPaired (loads_all host) r p =
      load_plugins_from_dir-keeps V IsPaired cached-IsPaired host r p
  run_call-IsPaired (unloads name) r p = unload_plugin-IsPaired name r p

  run_calls-IsPaired :
      (calls : List (Call M)) (r : Runtime M) → IsPaired r → IsPaired (run_calls calls r)
  run_calls-IsPaired [] r p = p
  run_calls-IsPaired (c ∷ calls) r p =
      run_calls-IsPaired calls (run_call c r) (run_call-IsPaired c r p)

  -- A compiled module that is found under its name.
  cached-lookup :
      (host : Host M) (r : Runtime M) (name : Text) (compiled : M)
      → lookup name (cached host r name compiled).plugins ≡ some compiled
  cached-lookup host r name compiled =
      lookup-insert name name compiled r.plugins
      ∙ ap (λ b. if b then some compiled else lookup name r.plugins) (beq_refl name)

  abbrev Found : Text → Runtime M → Type 0
  Found name r = (m : M) × (lookup name r.plugins ≡ some m)

  cached-Found :
      (name : Text) (host : Host M) (r : Runtime M) (other : Text) (m : M)
      → Found name r
      → Found name (cached host r other m)
  cached-Found name host r other m (held, h) = elim (Bool-cases (other == name)) [
    | inl same ↦ (m, lookup-insert other name m r.plugins ∙ rw same refl)
    | inr differs ↦ (held, lookup-insert other name m r.plugins ∙ rw differs h)
  ]

  -- The call does not unload the plugin of this name.
  abbrev pub Spares : Text → Call M → Type 0
  Spares name (loads host other) = Unit
  Spares name (loads_all host) = Unit
  Spares name (unloads other) = other ≢ name

  unload_plugin-Found :
      (name other : Text) (r : Runtime M)
      → other ≢ name
      → Found name r
      → Found name (unload_plugin other r)
  unfolding unload_plugin
  unload_plugin-Found name other r differs (m, h) =
      (m, lookup-delete other name r.plugins ∙ ground (arith, h, text_eq.beq_iff other name))

  run_call-Found :
      (name : Text) (c : Call M) (r : Runtime M)
      → Spares name c
      → Found name r
      → Found name (run_call c r)
  run_call-Found name (loads host other) r s h =
      load_plugin-keeps V (Found name) (cached-Found name) host other r h
  run_call-Found name (loads_all host) r s h =
      load_plugins_from_dir-keeps V (Found name) (cached-Found name) host r h
  run_call-Found name (unloads other) r s h = unload_plugin-Found name other r s h

  run_calls-Found :
      (name : Text) (calls : List (Call M)) (r : Runtime M)
      → All (Spares name) calls
      → Found name r
      → Found name (run_calls calls r)
  run_calls-Found name [] r s h = h
  run_calls-Found name (c ∷ calls) r (s, ss) h =
      run_calls-Found name calls (run_call c r) ss (run_call-Found name c r s h)

  compiled_result-Found :
      (host : Host M) (r : Runtime M) (name : Text) (o : Result M) (plugin : Plugin V)
      → (compiled_result host r name o).1 ≡ ok plugin
      → Found name (compiled_result {V = V} host r name o).0
  compiled_result-Found host r name (err e) plugin h = ground (arith, h)
  compiled_result-Found host r name (ok m) plugin h = (m, cached-lookup host r name m)

  file_result-Found :
      (host : Host M) (r : Runtime M) (name : Text) (o : Result Text) (plugin : Plugin V)
      → (file_result host r name o).1 ≡ ok plugin
      → Found name (file_result {V = V} host r name o).0
  file_result-Found host r name (err e) plugin h = ground (arith, h)
  file_result-Found host r name (ok file) plugin h = compiled_result-Found host r name _ plugin h

  from_cache-Found :
      (host : Host M) (r : Runtime M) (name : Text) (o : Option M) (plugin : Plugin V)
      → lookup name r.plugins ≡ o
      → (from_cache host r name o).1 ≡ ok plugin
      → Found name (from_cache {V = V} host r name o).0
  from_cache-Found host r name none plugin e h = file_result-Found host r name _ plugin h
  from_cache-Found host r name (some m) plugin e h = (m, e)

  -- The metadata of a name under which a module is kept.
  Found-get_metadata :
      (name : Text) (r : Runtime M) (o : Option M) (y : Option PluginMetadata)
      → Entry name o y
      → (m : M) → o ≡ some m
      → (d : PluginMetadata) × (y ≡ some d) × (d.name ≡ name)
  Found-get_metadata name r (some m) (some d) e m' h = (d, refl, e)
  Found-get_metadata name r (some m) none e m' h = elim e [ ]
  Found-get_metadata name r none y e m' h = ground (arith, h)

  -- After any calls of a new runtime, a plugin that LoadPlugin returns has metadata of its name, and so
  -- it has after any further calls, loads of other plugins among them, as long as none of them unloads
  -- this one; after its UnloadPlugin it is not found.
  pub run_calls-get_metadata :
      (dir name : Text) (calls later : List (Call M)) (host : Host M) (plugin : Plugin V)
      → All (Spares name) later
      → let r = run_calls calls (new_runtime dir) in
        let loaded = load_plugin host name r in
        loaded.1 ≡ ok plugin
        → ((d : PluginMetadata) × (get_metadata name (run_calls later loaded.0) ≡ ok d)
            × (d.name ≡ name))
          × (get_metadata name (unload_plugin name (run_calls later loaded.0))
              ≡ err plugin_not_found)
  unfolding get_metadata unload_plugin load_plugin
  run_calls-get_metadata dir name calls later host plugin spared h =
      let r = run_calls calls (new_runtime dir) in
      let loaded = (load_plugin {V = V} host name r).0 in
      let left = run_calls later loaded in
      let paired = run_calls-IsPaired later loaded (
        load_plugin-keeps V IsPaired cached-IsPaired host name r
          (run_calls-IsPaired calls _ (new_runtime-IsPaired M dir))) in
      let (m, held) =
        run_calls-Found name later loaded spared (from_cache-Found host r name _ plugin refl h) in
      let (d, found, same) = Found-get_metadata name left _ _ (paired name) m held in
      (
        (d, ap metadata_result found, same),
        ap metadata_result (
            lookup-delete name name left.metadata
            ∙ ap (λ b. if b then none else lookup name left.metadata) (beq_refl name)),
      )
