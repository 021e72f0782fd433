-- ===== src/Wasm/Exports/Laws.antt =====
-- What plugins can do with the functions of wasm/exports.go.
use gateway_a.Prelude.{
  Text, text_eq, false, Option, none, some, List, [], ◌∷◌, All, all, lookup, lookup-insert, Error,
  Result, err, ◌≡◌, ◌≢◌, refl, ap, ◌∙◌, arith,
}
use gateway_a.Wasm.{PluginInput}
use gateway_a.Wasm.Exports.{
  HostContext, HostCall, get_metadata, set_metadata, text, entries, of_input, or_empty, string_of,
  metadata_value, metadata_set, host_call, host_calls, HostFunction, is_supported, exported,
  export_to_wasm,
}

-- The call does not write this key.
abbrev pub Spares : Text → HostCall → Type 0
Spares key (set_metadata k value) = k ≢ key
Spares key _ = Unit

-- The part of an input that is not its context.
abbrev pub request_of : {V : Type 0} → PluginInput V → PluginInput V
request_of i = record i { context = none }

abbrev pub requests : {V : Type 0} → Option (PluginInput V) → Option (PluginInput V)
requests none = none
requests (some i) = some (request_of i)

-- What the context of the input holds under a key.
abbrev pub held : {V : Type 0} → Text → Option (PluginInput V) → Option V
held key none = none
held key (some i) = lookup key (entries i.context)

module _ {V : Type 0} (of_string : Text → V) where
  metadata_set-requests :
      (key value : Text) (i : Option (PluginInput V))
      → requests (metadata_set of_string key value i) ≡ requests i
  metadata_set-requests key value none = refl
  metadata_set-requests key value (some i) = refl

  metadata_set-held :
      (k key value : Text) (i : Option (PluginInput V))
      → k ≢ key
      → held key (metadata_set of_string k value i) ≡ held key i
  metadata_set-held k key value none h = refl
  metadata_set-held k key value (some i) h =
      ground
        (arith, h, lookup-insert k key (of_string value) (entries i.context), text_eq.beq_iff k key)

  metadata_set-same :
      (key value : Text) (i : PluginInput V)
      → held key (metadata_set of_string key value (some i)) ≡ some (of_string value)
  metadata_set-same key value i =
      ground (
        arith,
        lookup-insert key key (of_string value) (entries i.context),
        text_eq.beq_iff key key,
      )

module _ {V : Type 0} (of_string : Text → V) (as_string : V → Option Text) where
  host_call-requests :
      (call : HostCall) (c : HostContext V)
      → requests (host_call of_string as_string call c).0.input ≡ requests c.input
  unfolding host_call
  host_call-requests (set_metadata key value) c = metadata_set-requests of_string key value c.input
  host_call-requests _ c = refl

  -- Whatever host functions a plugin calls, the request that it was given stays as it is: its method,
  -- URL, headers, body, tenant and key. So get_header never sees what set_header has set.
  pub host_calls-requests :
      (calls : List HostCall) (c : HostContext V)
      → requests (host_calls of_string as_string calls c).input ≡ requests c.input
  unfolding host_calls
  host_calls-requests [] c = refl
  host_calls-requests (call ∷ calls) c =
      host_calls-requests calls (host_call of_string as_string call c).0 ∙ host_call-requests call c

  host_call-held :
      (key : Text) (call : HostCall) (c : HostContext V)
      → Spares key call
      → held key (host_call of_string as_string call c).0.input ≡ held key c.input
  unfolding host_call
  host_call-held key (set_metadata k value) c h = metadata_set-held of_string k key value c.input h
  host_call-held key _ c h = refl

  host_calls-held :
      (key : Text) (calls : List HostCall) (c : HostContext V)
      → All (Spares key) calls
      → held key (host_calls of_string as_string calls c).input ≡ held key c.input
  unfolding host_calls
  host_calls-held key [] c h = refl
  host_calls-held key (call ∷ calls) c h =
      host_calls-held key calls (host_call of_string as_string call c).0 h.1
      ∙ host_call-held key call c h.0

  of_input-held :
      (key value : Text) (i : Option (PluginInput V))
      → as_string (of_string value) ≡ some value
      → held key i ≡ some (of_string value)
      → of_input (metadata_value as_string key) i ≡ text value
  of_input-held key value none s h = absurd (ground (arith, h))
  of_input-held key value (some i) s h =
      ap (λ o. text (string_of as_string o)) h ∙ ap (λ o. text (or_empty o)) s

  get_metadata-held :
      (key value : Text) (c : HostContext V)
      → as_string (of_string value) ≡ some value
      → held key c.input ≡ some (of_string value)
      → (host_call of_string as_string (get_metadata key) c).1 ≡ text value
  unfolding host_call
  get_metadata-held key value c s h = of_input-held key value c.input s h

  -- A plugin reads back the metadata that it has set, after any calls that do not set the same key, where
  -- the Go context holds an input. A string that is made an interface value is asserted to be itself.
  pub host_calls-get_metadata :
      (key value : Text) (calls : List HostCall) (c : HostContext V) (i : PluginInput V)
      → c.input ≡ some i
      → as_string (of_string value) ≡ some value
      → All (Spares key) calls
      → let set = (host_call of_string as_string (set_metadata key value) c).0 in
        (host_call of_string as_string
          (get_metadata key)
          (host_calls of_string as_string calls set)).1
        ≡ text value
  unfolding host_call
  host_calls-get_metadata key value calls c i given s h =
      let set = (host_call of_string as_string (set_metadata key value) c).0 in
      let stored : held key set.input ≡ some (of_string value) =
        ap (λ x. held key (metadata_set of_string key value x)) given
        ∙ metadata_set-same of_string key value i in
      get_metadata-held key value (host_calls of_string as_string calls set) s
        (host_calls-held key calls set h ∙ stored)

-- ExportToWASM always fails. Of wazero it relies on this: a module cannot be instantiated of a function
-- with a parameter or a result that is not of a numeric type.
pub export_to_wasm-fails :
    {M : Type 0} (instantiate : List HostFunction → Result M)
    → ((fs : List HostFunction)
        → all is_supported fs ≡ false
        → (e : Error) × (instantiate fs ≡ err e))
    → (e : Error) × (export_to_wasm instantiate ≡ err e)
unfolding export_to_wasm
export_to_wasm-fails instantiate documented = documented exported refl
