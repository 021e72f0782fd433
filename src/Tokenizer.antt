-- ===== src/Tokenizer.antt =====
-- internal/tokenizer/tokenizer.go: the two functions that call one another, on fuel; `none` means
-- that the fuel ran out, which here is a call stack without end. The global `defaultTokenizer` is
-- an argument. A tokenizer that another package supplies is a function of its own.
pub mod Termination
mod Tests
use gateway_a.Prelude.{
  ℕ, zero, suc, ℤ, pos, length, Text, codes, Bool, true, false, ◌||◌, Option, none, some, List, [],
  ◌∷◌, if◌then◌else◌, Float64,
}

pub record Config (F : Type 0) : Type 0 where
  -- a Go map may be nil
  pub model_factors : Option (List (Text × F))
  pub default_factor : F

pub data Tokenizer (F : Type 0) : Type 0 where
  -- *HeuristicTokenizer
  heuristic : Config F → Tokenizer F
  -- any other implementation
  external : (Text → Text → ℤ) → Tokenizer F

module _ {F : Type 0} ⦃fl : Float64 F⦄ where
  -- The literal tenths / 10, which the division rounds as the literal is rounded.
  abbrev tenths : ℕ → F
  tenths n = fl.fdiv (fl.of_int (pos n)) (fl.of_int (pos 10))

  unfoldable pub default_config : Config F
  default_config = record {
    model_factors = some (
        (codes "gpt-4", tenths 38)
        ∷ (codes "gpt-4o", tenths 36)
        ∷ (codes "gpt-3.5-turbo", tenths 40)
        ∷ (codes "claude-3", tenths 37)
        ∷ (codes "claude-3-5", tenths 35)
        ∷ (codes "gemini", tenths 42)
        ∷ []);
    default_factor = tenths 38;
  }

  abbrev or_default : Config F → Config F
  or_default cfg = elim cfg.model_factors [ none ↦ default_config | some m ↦ cfg ]

  -- NewHeuristicTokenizer.
  unfoldable pub new_heuristic : Config F → Config F
  new_heuristic cfg =
      let chosen = or_default cfg in
      if fl.fle chosen.default_factor (fl.of_int (pos 0))
      then record chosen { default_factor = tenths 38 }
      else chosen

  abbrev pub is_custom : Config F → Bool
  is_custom cfg = elim cfg.model_factors [
    | some m ↦ true
    | none ↦ fl.flt (fl.of_int (pos 0)) cfg.default_factor
  ]

  -- One call of EstimateTokens, whose calls of a heuristic's CountTokens go to `again`.
  abbrev estimate_step : (Config F → Option ℤ) → Tokenizer F → Text → Text → Config F → Option ℤ
  estimate_step again (heuristic own) text model cfg =
      if is_custom cfg then again (new_heuristic cfg) else again own
  estimate_step again (external count) text model cfg =
      if is_custom cfg then again (new_heuristic cfg) else some (count text model)

  -- EstimateTokens, with CountTokens of the heuristic tokenizer as its recursive call.
  unfoldable pub estimate_tokens : ℕ → Tokenizer F → Text → Text → Config F → Option ℤ
  estimate_tokens zero default_tokenizer text model cfg = none
  estimate_tokens (suc fuel) default_tokenizer text model cfg =
      let again = estimate_tokens fuel default_tokenizer text model in
      estimate_step again default_tokenizer text model cfg

  -- HeuristicTokenizer.CountTokens.
  unfoldable pub count_tokens : ℕ → Tokenizer F → Config F → Text → Text → Option ℤ
  count_tokens fuel default_tokenizer own text model =
      estimate_tokens fuel default_tokenizer text model own

  -- SetDefaultTokenizer, where `none` is nil.
  abbrev pub set_default_tokenizer : Option (Tokenizer F) → Tokenizer F → Tokenizer F
  set_default_tokenizer none old = old
  set_default_tokenizer (some t) old = t

  -- The initial value of `defaultTokenizer`.
  abbrev pub initial_tokenizer : Tokenizer F
  initial_tokenizer = heuristic (new_heuristic default_config)

-- EstimateTokensRough: int64(float64(len(text)) / 2.8).
unfoldable pub estimate_tokens_rough : {F : Type 0} → Float64 F → Text → ℤ
estimate_tokens_rough fl [] = pos 0
estimate_tokens_rough fl (c ∷ text) = fl.truncate (
    fl.fdiv (fl.of_int (pos (length (c ∷ text))))
      (fl.fdiv (fl.of_int (pos 28)) (fl.of_int (pos 10))))
