-- ===== src/Wasm.antt =====
-- wasm/types.go: plugins and the chain that runs their hooks. Inputs are shared by pointer, so a
-- hook returns the input as it leaves it beside its result, and the chain writes the propagated
-- metadata into that same input. `V` is the type of the values of the context map.
pub mod Chain
pub mod Runtime
pub mod Exports
mod Tests
use gateway_a.Prelude.{
  ℕ, Text, text_eq, codes, Bool, true, false, Option, none, some, List, [], ◌∷◌, ◌++◌, insert,
  Result, ok, err, if◌then◌else◌,
}

pub record PluginInput (V : Type 0) : Type 0 where
  pub method : Text
  pub url : Text
  pub headers : List (Text × Text)
  pub body : Text
  pub tenant_id : Text
  pub api_key : Text
  -- nil until something is stored in it
  pub context : Option (List (Text × V))

pub record PluginOutput : Type 0 where
  pub status : ℕ
  pub headers : List (Text × Text)
  pub body : Text
  pub metadata : List (Text × Text)
  pub continue : Bool

pub record ErrorInput (V : Type 0) : Type 0 where
  pub plugin_input : PluginInput V
  pub error_code : Text
  pub error_message : Text

pub record ErrorOutput : Type 0 where
  pub status : ℕ
  pub headers : List (Text × Text)
  pub body : Text
  pub metadata : List (Text × Text)

abbrev pub RequestHook : Type 0 → Type 0
RequestHook V = PluginInput V → PluginInput V × Result (Option PluginOutput)

abbrev pub ResponseHook : Type 0
ResponseHook = PluginOutput → Result (Option PluginOutput)

abbrev pub ErrorHook : Type 0 → Type 0
ErrorHook V = ErrorInput V → Result (Option ErrorOutput)

pub record Plugin (V : Type 0) : Type 0 where
  pub on_request : Option (RequestHook V)
  pub on_response : Option ResponseHook
  pub on_error : Option (ErrorHook V)

module _ {V : Type 0} where
  abbrev pub new_plugin : Plugin V
  new_plugin = record { on_request = none; on_response = none; on_error = none }

  -- `Add` of the chain.
  abbrev pub add : List (Plugin V) → Plugin V → List (Plugin V)
  add plugins plugin = plugins ++ plugin ∷ []

  abbrev or_empty : Option (List (Text × V)) → List (Text × V)
  or_empty none = []
  or_empty (some m) = m

  -- Stores each metadata entry in the context; `of_string` makes an interface value of a string.
  unfoldable pub propagate_into :
      (Text → V) → List (Text × Text) → List (Text × V) → List (Text × V)
  propagate_into of_string [] context = context
  propagate_into of_string ((k, v) ∷ rest) context =
      propagate_into of_string rest (insert k (of_string v) context)

  abbrev pub propagate : (Text → V) → PluginOutput → PluginInput V → PluginInput V
  propagate of_string output input = record input {
    context = some (propagate_into of_string output.metadata (or_empty input.context));
  }

  module _ (of_string : Text → V) where
    -- The body of the loop of ExecuteOnRequest; `go_on` is the loop over the plugins that follow,
    -- from the current input and the variable `output`.
    abbrev pub request_step :
        (PluginInput V → Option PluginOutput → PluginInput V × Result (Option PluginOutput))
        → Plugin V
        → PluginInput V
        → Option PluginOutput
        → PluginInput V × Result (Option PluginOutput)
    request_step go_on plugin input output = elim plugin.on_request [
      | none ↦ go_on input output
      | some hook ↦ elim (hook input).1 [
        | err e ↦ ((hook input).0, err e)
        | ok none ↦ go_on (hook input).0 none
        | ok (some o) ↦ elim o.continue [
          | false ↦ ((hook input).0, ok (some o))
          | true ↦ go_on (propagate of_string o (hook input).0) (some o)
        ]
      ]
    ]

    unfoldable pub request_loop :
        List (Plugin V)
        → PluginInput V
        → Option PluginOutput
        → PluginInput V × Result (Option PluginOutput)
    request_loop [] input output = (input, ok output)
    request_loop (plugin ∷ rest) input output = request_step (request_loop rest) plugin input output

    unfoldable pub execute_on_request :
        List (Plugin V) → PluginInput V → PluginInput V × Result (Option PluginOutput)
    execute_on_request plugins input = request_loop plugins input none

  -- ExecuteOnResponse, with the variable `current`.
  unfoldable pub execute_on_response : List (Plugin V) → PluginOutput → Result PluginOutput
  execute_on_response [] current = ok current
  execute_on_response (plugin ∷ rest) current = elim plugin.on_response [
    | none ↦ execute_on_response rest current
    | some hook ↦ elim (hook current) [
      | err e ↦ err e
      | ok none ↦ execute_on_response rest current
      | ok (some o) ↦ elim o.continue [ false ↦ ok o | true ↦ execute_on_response rest o ]
    ]
  ]

  -- ExecuteOnError.
  unfoldable pub execute_on_error : List (Plugin V) → ErrorInput V → Result (Option ErrorOutput)
  execute_on_error [] input = ok none
  execute_on_error (plugin ∷ rest) input = elim plugin.on_error [
    | none ↦ execute_on_error rest input
    | some hook ↦ elim (hook input) [
      | err e ↦ err e
      | ok none ↦ execute_on_error rest input
      | ok (some o) ↦ ok (some o)
    ]
  ]
