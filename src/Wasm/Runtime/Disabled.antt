-- ===== src/Wasm/Runtime/Disabled.antt =====
-- What a chain of plugins that the runtime of wasm/plugin.go loads can do.
use gateway_a.Prelude.{
  Text, text_eq, codes, Bool, true, false, Option, none, some, List, [], ◌∷◌, All, All-append,
  contains, lookup, if-both, Error, Result, ok, err, ◌≡◌, refl, ◌⊎◌, inl, inr,
}
use gateway_a.Wasm.{PluginInput, PluginOutput, Plugin, request_loop, execute_on_request}
use gateway_a.Wasm.Runtime.{
  Host, Runtime, call_on_request, given, has_hook, checked, instantiated, instantiate_plugin,
  compiled_result, file_result, from_cache, load_plugin, disabled,
}
use gateway_a.Wasm.Runtime.Loading.{loaded, load_next, run_chain, load_loop, execute_chain}

module _ (V : Type 0) where
  -- A plugin whose hook of a request is the disabled call, if it has one.
  abbrev IsDisabled : Plugin V → Type 0
  IsDisabled plugin = (plugin.on_request ≡ none) ⊎ (plugin.on_request ≡ some call_on_request)

  abbrev pub PassesOn : PluginInput V → PluginInput V × Result (Option PluginOutput) → Type 0
  PassesOn input (after, outcome) =
      (after ≡ input) × (((e : Error) × (outcome ≡ err e)) ⊎ (outcome ≡ ok none))

  request_loop-PassesOn :
      (of_string : Text → V) (plugins : List (Plugin V)) (input : PluginInput V)
      → All IsDisabled plugins
      → PassesOn input (request_loop of_string plugins input none)
  unfolding request_loop
  request_loop-PassesOn of_string [] input h = (refl, inr refl)
  request_loop-PassesOn of_string (plugin ∷ plugins) input (inl absent, h) =
      rw absent (request_loop-PassesOn of_string plugins input h)
  request_loop-PassesOn of_string (plugin ∷ plugins) input (inr off, h) =
      rw off (refl, inl (disabled, refl))

  -- A result that is a disabled plugin, or an error.
  abbrev Off : Result (Plugin V) → Type 0
  Off (ok plugin) = IsDisabled plugin
  Off (err e) = Unit

  given-Off :
      (b : Bool)
      → (given b (call_on_request {V = V}) ≡ none)
        ⊎ (given b (call_on_request {V = V}) ≡ some call_on_request)
  given-Off true = inr refl
  given-Off false = inl refl

  checked-Off : (exports : List Text) → Off (checked exports)
  checked-Off exports =
      if-both Off (has_hook exports) _ _ (given-Off (contains exports (codes "on_request"))) tt

  -- A list of disabled plugins, or an error.
  abbrev AllOff : Result (List (Plugin V)) → Type 0
  AllOff (ok plugins) = All IsDisabled plugins
  AllOff (err e) = Unit

  module _ {M : Type 0} where
    instantiated-Off :
        (host : Host M) (m : M) (name : Text) (o : Option Error) → Off (instantiated host m name o)
    instantiated-Off host m name (some e) = tt
    instantiated-Off host m name none = checked-Off (host.exported_functions m)

    instantiate_plugin-Off :
        (host : Host M) (m : M) (name : Text) → Off (instantiate_plugin host m name)
    unfolding instantiate_plugin
    instantiate_plugin-Off host m name = instantiated-Off host m name (host.instantiate_module m)

    compiled_result-Off :
        (host : Host M) (r : Runtime M) (name : Text) (o : Result M)
        → Off (compiled_result host r name o).1
    compiled_result-Off host r name (err e) = tt
    compiled_result-Off host r name (ok m) = instantiate_plugin-Off host m name

    file_result-Off :
        (host : Host M) (r : Runtime M) (name : Text) (o : Result Text)
        → Off (file_result host r name o).1
    file_result-Off host r name (err e) = tt
    file_result-Off host r name (ok file) =
        compiled_result-Off host r name (host.compile_module file)

    from_cache-Off :
        (host : Host M) (r : Runtime M) (name : Text) (o : Option M)
        → Off (from_cache host r name o).1
    from_cache-Off host r name none = file_result-Off host r name _
    from_cache-Off host r name (some m) = instantiate_plugin-Off host m name

    load_plugin-Off :
        (host : Host M) (name : Text) (r : Runtime M) → Off (load_plugin host name r).1
    unfolding load_plugin
    load_plugin-Off host name r = from_cache-Off host r name (lookup name r.plugins)

    loaded-AllOff :
        (of_string : Text → V) (name : Text) (chain : List (Plugin V))
        (p : Runtime M × Result (Plugin V))
        → All IsDisabled chain
        → Off p.1
        → AllOff (loaded of_string name chain p).1
    loaded-AllOff of_string name chain (r, err e) h off = tt
    loaded-AllOff of_string name chain (r, ok plugin) h off =
        All-append IsDisabled chain (plugin ∷ []) h (off, tt)

    load_next-AllOff :
        (of_string : Text → V)
        (go_on : List (Plugin V) → Runtime M → Runtime M × Result (List (Plugin V)))
        (p : Runtime M × Result (List (Plugin V)))
        → ((chain : List (Plugin V)) (r : Runtime M)
            → All IsDisabled chain
            → AllOff (go_on chain r).1)
        → AllOff p.1
        → AllOff (load_next of_string go_on p).1
    load_next-AllOff of_string go_on (r, err e) h off = tt
    load_next-AllOff of_string go_on (r, ok chain) h off = h chain r off

    load_loop-AllOff :
        (of_string : Text → V) (names : List (Host M × Text)) (chain : List (Plugin V))
        (r : Runtime M)
        → All IsDisabled chain
        → AllOff (load_loop of_string names chain r).1
    unfolding load_loop
    load_loop-AllOff of_string [] chain r h = h
    load_loop-AllOff of_string ((host, name) ∷ names) chain r h =
        load_next-AllOff of_string (load_loop of_string names) _ (load_loop-AllOff of_string names)
          (loaded-AllOff of_string name chain (load_plugin host name r) h
            (load_plugin-Off host name r))

    run_chain-PassesOn :
        (of_string : Text → V) (input : PluginInput V) (p : Runtime M × Result (List (Plugin V)))
        → AllOff p.1
        → PassesOn input (run_chain of_string input p).1
    unfolding execute_on_request
    run_chain-PassesOn of_string input (r, err e) h = (refl, inl (e, refl))
    run_chain-PassesOn of_string input (r, ok plugins) h =
        request_loop-PassesOn of_string plugins input h

    -- Whatever plugins ExecuteChain is given, and whatever their files hold, it leaves the input as it
    -- is, and returns an error or no output.
    pub execute_chain-PassesOn :
        (of_string : Text → V) (names : List (Host M × Text)) (input : PluginInput V)
        (r : Runtime M)
        → PassesOn input (execute_chain of_string names input r).1
    unfolding execute_chain
    execute_chain-PassesOn of_string names input r =
        run_chain-PassesOn of_string input _ (load_loop-AllOff of_string names [] r tt)
