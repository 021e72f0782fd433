-- ===== src/Tokenizer/Termination.antt =====
-- When EstimateTokens of internal/tokenizer/tokenizer.go returns.
use gateway_a.Prelude.{
  pos, ap, ◌∙◌, ℕ, zero, suc, ℤ, Text, true, false, none, some, ◌≡◌, refl, ◌↔◌, inl, inr, arith,
  Float64, Bool-cases,
}
use gateway_a.Tokenizer.{
  Config, Tokenizer, heuristic, external, default_config, new_heuristic, is_custom, estimate_tokens,
  count_tokens, initial_tokenizer,
}

module _ {F : Type 0} ⦃fl : Float64 F⦄ where
  -- The configuration of every heuristic tokenizer counts as custom.
  is_custom-new_heuristic : (cfg : Config F) → is_custom (new_heuristic cfg) ≡ true
  unfolding new_heuristic default_config
  is_custom-new_heuristic cfg = ground arith

  custom-diverges :
      (fuel : ℕ) (t : Tokenizer F) (text model : Text) (cfg : Config F)
      → is_custom cfg ≡ true
      → estimate_tokens fuel t text model cfg ≡ none
  unfolding estimate_tokens
  custom-diverges zero t text model cfg h = refl
  custom-diverges (suc fuel) (heuristic own) text model cfg h = rw h (
      custom-diverges fuel (heuristic own) text model (new_heuristic cfg)
        (is_custom-new_heuristic cfg))
  custom-diverges (suc fuel) (external count) text model cfg h = rw h (
      custom-diverges fuel (external count) text model (new_heuristic cfg)
        (is_custom-new_heuristic cfg))

  heuristic-diverges :
      (fuel : ℕ) (own : Config F) (text model : Text) (cfg : Config F)
      → is_custom own ≡ true
      → estimate_tokens fuel (heuristic own) text model cfg ≡ none
  unfolding estimate_tokens
  heuristic-diverges zero own text model cfg h = refl
  heuristic-diverges (suc fuel) own text model cfg h = ground (
    arith,
    custom-diverges fuel (heuristic own) text model (new_heuristic cfg)
        (is_custom-new_heuristic cfg),
    custom-diverges fuel (heuristic own) text model own h,
  )

  -- A heuristic tokenizer, as its constructor makes it, never counts anything: whatever the depth
  -- of the call stack, CountTokens has not returned.
  pub count_tokens-new_heuristic :
      (fuel : ℕ) (t : Tokenizer F) (cfg : Config F) (text model : Text)
      → count_tokens fuel t (new_heuristic cfg) text model ≡ none
  unfolding count_tokens
  count_tokens-new_heuristic fuel t cfg text model =
      custom-diverges fuel t text model (new_heuristic cfg) (is_custom-new_heuristic cfg)

  -- The count of a tokenizer from outside the package.
  abbrev count_of : Tokenizer F → Text → Text → ℤ
  count_of (heuristic own) text model = pos 0
  count_of (external count) text model = count text model

  external-returns :
      (fuel : ℕ) (count : Text → Text → ℤ) (text model : Text) (cfg : Config F) (r : ℤ)
      → is_custom cfg ≡ false
      → estimate_tokens fuel (external count) text model cfg ≡ some r
      → count text model ≡ r
  unfolding estimate_tokens
  external-returns zero count text model cfg r plain h = cc
  external-returns (suc fuel) count text model cfg r plain h = ground (arith, plain, h)

  -- EstimateTokens returns r exactly where the configuration sets nothing, the default tokenizer
  -- has been replaced by one from outside the package, and r is that tokenizer's count. A heuristic
  -- default tokenizer is one that the constructor made.
  pub estimate_tokens_iff :
      (t : Tokenizer F) (text model : Text) (cfg : Config F) (r : ℤ)
      → ((own : Config F) → t ≡ heuristic own → is_custom own ≡ true)
      → ((fuel : ℕ) × (estimate_tokens fuel t text model cfg ≡ some r)) ↔ (
          (count : Text → Text → ℤ) × (t ≡ external count)
          × (is_custom cfg ≡ false)
          × (count text model ≡ r))
  estimate_tokens_iff (heuristic own) text model cfg r made = (
    λ (fuel, h).
        let never = heuristic-diverges fuel own text model cfg (made own refl) in
        absurd (ground (arith, never, h)),
    λ (count, e, c, n). absurd (cc e),
  )
  estimate_tokens_iff (external count) text model cfg r made = (
    λ (fuel, h). elim (Bool-cases (is_custom cfg)) [
      | inl custom ↦
          let never = custom-diverges fuel (external count) text model cfg custom in
          absurd (ground (arith, never, h))
      | inr plain ↦ (count, refl, plain, external-returns fuel count text model cfg r plain h)
    ],
    λ (g, e, plain, n).
        let value : count text model ≡ r = ap (λ t. count_of t text model) e ∙ n in
        (1, unfold estimate_tokens in rw (plain, value) refl),
  )

  -- With the package's initial default tokenizer no call returns, whatever the configuration.
  pub estimate_tokens-initial :
      (fuel : ℕ) (text model : Text) (cfg : Config F)
      → estimate_tokens fuel initial_tokenizer text model cfg ≡ none
  estimate_tokens-initial fuel text model cfg =
      heuristic-diverges fuel (new_heuristic default_config) text model cfg
        (is_custom-new_heuristic default_config)
