-- ===== src/Wasm/Chain.antt =====
-- Order, halting and propagation in the plugin chains of wasm/types.go.
use mathlib.Core.Path.{fun_ext}
use gateway_a.Prelude.{
  Text, text_eq, true, false, Option, none, some, List, [], ◌∷◌, ◌++◌, insert, lookup,
  lookup-insert, Result, ok, err, Error, ap, sym, ◌≢◌, if◌then◌else◌, ◌≡◌, refl, ◌∙◌, arith, All,
  ◌==◌, Option-cases, inl, inr, ◌⊎◌,
}
use gateway_a.Wasm.{
  PluginInput, PluginOutput, ErrorInput, ErrorOutput, RequestHook, ResponseHook, Plugin,
  propagate_into, propagate, request_loop, request_step, execute_on_request, execute_on_response,
  execute_on_error, or_empty,
}

-- A result that ends a chain: an error, or an output that says not to continue.
pub data Halts : Result (Option PluginOutput) → Type 0 where
  failure : (e : Error) → Halts (err e)
  early : (o : PluginOutput) → o.continue ≡ false → Halts (ok (some o))

Halts-cases :
    {r : Result (Option PluginOutput)}
    → Halts r
    → ((e : Error) × (r ≡ err e)) ⊎ ((o : PluginOutput) × (r ≡ ok (some o)) × (o.continue ≡ false))
Halts-cases (failure e) = inl (e, refl)
Halts-cases (early o h) = inr (o, refl, h)

module _ {V : Type 0} (of_string : Text → V) where
  request_step-halt :
      (plugin : Plugin V) (rest : List (Plugin V)) (hook : RequestHook V) (input : PluginInput V)
      (output : Option PluginOutput)
      → plugin.on_request ≡ some hook
      → Halts (hook input).1
      → request_loop of_string (plugin ∷ rest) input output ≡ hook input
  unfolding request_loop
  request_step-halt plugin rest hook input output p h = ground (arith, p, Halts-cases h)

  loop-halt :
      (before : List (Plugin V)) (plugin : Plugin V) (after : List (Plugin V))
      (hook : RequestHook V)
      → plugin.on_request ≡ some hook
      → ((i : PluginInput V) → Halts (hook i).1)
      → request_loop of_string (before ++ plugin ∷ after)
        ≡ request_loop of_string (before ++ plugin ∷ [])
  unfolding request_loop
  loop-halt [] plugin after hook p h = fun_ext λ input. fun_ext λ output.
      request_step-halt plugin after hook input output p (h input)
      ∙ sym (request_step-halt plugin [] hook input output p (h input))
  loop-halt (b ∷ before) plugin after hook p h = fun_ext λ input. fun_ext λ output.
      ap (λ go_on. request_step of_string go_on b input output)
        (loop-halt before plugin after hook p h)

  -- A plugin whose request hook always fails or says not to continue ends the chain: no plugin
  -- after it has any influence on the result or on the input.
  pub execute_on_request-halt :
      (before : List (Plugin V)) (plugin : Plugin V) (after : List (Plugin V))
      (hook : RequestHook V) (input : PluginInput V)
      → plugin.on_request ≡ some hook
      → ((i : PluginInput V) → Halts (hook i).1)
      → execute_on_request of_string (before ++ plugin ∷ after) input
        ≡ execute_on_request of_string (before ++ plugin ∷ []) input
  unfolding execute_on_request
  execute_on_request-halt before plugin after hook input p h =
      ap (λ loop. loop input none) (loop-halt before plugin after hook p h)

  -- The entry that ranges last over a key wins; other keys keep what the context had.
  abbrev pub last_of : Text → Option V → List (Text × Text) → Option V
  last_of key found [] = found
  last_of key found ((k, v) ∷ rest) =
      last_of key (if k == key then some (of_string v) else found) rest

  lookup-propagate_into :
      (metadata : List (Text × Text)) (context : List (Text × V)) (key : Text)
      → lookup key (propagate_into of_string metadata context)
        ≡ last_of key (lookup key context) metadata
  unfolding propagate_into
  lookup-propagate_into [] context key = refl
  lookup-propagate_into ((k, v) ∷ rest) context key =
      lookup-propagate_into rest (insert k (of_string v) context) key
      ∙ ap (λ found. last_of key found rest) (lookup-insert k key (of_string v) context)

  -- After a plugin that continues, the next one sees the metadata of its output in the context,
  -- over what the context held before; every other part of the input is as the hook left it.
  pub request_loop-propagate :
      (plugin : Plugin V) (rest : List (Plugin V)) (hook : RequestHook V) (input : PluginInput V)
      (o : PluginOutput) (output : Option PluginOutput)
      → plugin.on_request ≡ some hook
      → (hook input).1 ≡ ok (some o)
      → o.continue ≡ true
      → (next : PluginInput V) × (request_loop of_string (plugin ∷ rest) input output
          ≡ request_loop of_string rest next (some o))
        × ((context : List (Text × V)) × (next ≡ record (hook input).0 { context = some context })
            × ((key : Text)
                → lookup key context
                  ≡ last_of key (lookup key (or_empty (hook input).0.context)) o.metadata))
  unfolding request_loop
  request_loop-propagate plugin rest hook input o output p r c = (
    propagate of_string o (hook input).0,
    ground arith,
    (
      propagate_into of_string o.metadata (or_empty (hook input).0.context),
      refl,
      lookup-propagate_into o.metadata (or_empty (hook input).0.context),
    ),
  )

-- A response hook, or its absence, as a function on responses.
abbrev pub as_function : Option ResponseHook → PluginOutput → Result PluginOutput
as_function none o = ok o
as_function (some hook) o = elim (hook o) [ err e ↦ err e | ok none ↦ ok o | ok (some p) ↦ ok p ]

-- The forms of a hook's result.
Answer-cases :
    (r : Result (Option PluginOutput))
    → ((e : Error) × (r ≡ err e)) ⊎ ((r ≡ ok none) ⊎ ((p : PluginOutput) × (r ≡ ok (some p))))
Answer-cases (err e) = inl (e, refl)
Answer-cases (ok none) = inr (inl refl)
Answer-cases (ok (some p)) = inr (inr (p, refl))

module _ {V : Type 0} where
  abbrev pub Continues : Plugin V → Type 0
  Continues plugin =
      (hook : ResponseHook) (o p : PluginOutput)
      → plugin.on_response ≡ some hook
      → hook o ≡ ok (some p)
      → p.continue ≡ true

  abbrev pub compose : List (Plugin V) → PluginOutput → Result PluginOutput
  compose [] o = ok o
  compose (plugin ∷ rest) o = elim (as_function plugin.on_response o) [
    | err e ↦ err e
    | ok p ↦ compose rest p
  ]

  -- If no response hook says not to continue, the chain is the composition of the hooks in order,
  -- up to the first error; a missing hook or a nil output passes the response on unchanged.
  pub execute_on_response-compose :
      (plugins : List (Plugin V)) (o : PluginOutput)
      → All Continues plugins
      → execute_on_response plugins o ≡ compose plugins o
  unfolding execute_on_response
  execute_on_response-compose [] o h = refl
  execute_on_response-compose (plugin ∷ rest) o h = elim (Option-cases plugin.on_response) [
    | inl e ↦ ground (arith, execute_on_response-compose rest o h.1)
    | inr (hook, e) ↦ elim (Answer-cases (hook o)) [
      | inl (x, r) ↦ ground arith
      | inr (inl r) ↦ ground (arith, execute_on_response-compose rest o h.1)
      | inr (inr (p, r)) ↦ ground (arith, h.0 hook o p e r, execute_on_response-compose rest p h.1)
    ]
  ]

  -- Whether an error hook has no answer: it is absent or returns nil without an error.
  abbrev pub Silent : ErrorInput V → Plugin V → Type 0
  Silent input plugin =
      (plugin.on_error ≡ none)
      ⊎ ((hook : ErrorInput V → Result (Option ErrorOutput)) × (plugin.on_error ≡ some hook)
          × (hook input ≡ ok none))

  -- The first error hook with an answer decides, whatever stands behind it; the silent ones before
  -- it are passed over.
  pub execute_on_error-first :
      (before : List (Plugin V)) (plugin : Plugin V) (after : List (Plugin V))
      (input : ErrorInput V) (hook : ErrorInput V → Result (Option ErrorOutput))
      (answer : Result (Option ErrorOutput))
      → All (Silent input) before
      → plugin.on_error ≡ some hook
      → hook input ≡ answer
      → answer ≢ ok none
      → execute_on_error (before ++ plugin ∷ after) input ≡ answer
  unfolding execute_on_error
  execute_on_error-first [] plugin after input hook answer h p a ne = ground arith
  execute_on_error-first (b ∷ before) plugin after input hook answer h p a ne =
      ground (arith, execute_on_error-first before plugin after input hook answer h.1 p a ne)
