-- ===== src/Tokenizer/Tests.antt =====
-- The theorems on the token counter at the initial default tokenizer and at one from outside.
use gateway_a.Prelude.{ℕ, ℤ, pos, Text, codes, false, none, some, length, ◌≡◌, ◌↔◌}
use gateway_a.Samples.{whole}
use gateway_a.Tokenizer.{Tokenizer, Config, external, estimate_tokens, is_custom}
use gateway_a.Tokenizer.Termination.{estimate_tokens_iff}

abbrev unset : Config ℤ
unset = record { model_factors = none; default_factor = pos 0 }

abbrev length_of : Text → Text → ℤ
length_of text model = pos (length text)

estimate_tokens_iff_example :
    ((fuel : ℕ) × (estimate_tokens fuel (external length_of) (codes "hello") (codes "m") unset
        ≡ some (pos 5)))
    ↔ ((count : Text → Text → ℤ) × (◌≡◌ {A = Tokenizer ℤ} (external length_of) (external count))
        × (is_custom unset ≡ false)
        × (count (codes "hello") (codes "m") ≡ pos 5))
estimate_tokens_iff_example =
    estimate_tokens_iff (external length_of) (codes "hello") (codes "m") unset (pos 5) (λ own e. cc)
