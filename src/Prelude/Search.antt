-- ===== src/Prelude/Search.antt =====
-- Searches in byte texts (the package `strings` of Go).
use mathlib.Core.Path.{◌≡◌, refl}
use mathlib.Core.Logic.{inl, inr}
use mathlib.Core.Bool.{Bool, true, false, ◌&&◌, ◌||◌}
use mathlib.Core.List.{[], ◌∷◌, ◌++◌}
use native.Mathlib.Omega.{arith}
use gateway_a.Prelude.Tests.{Bool-cases, nat_beq, if◌then◌else◌}
use gateway_a.Prelude.Keys.{Text}

-- strings.HasPrefix(s, prefix)
unfoldable pub has_prefix : Text → Text → Bool
has_prefix s [] = true
has_prefix [] (p ∷ ps) = false
has_prefix (c ∷ s) (p ∷ ps) = nat_beq c p && has_prefix s ps

-- strings.Contains(s, sub)
unfoldable pub text_contains : Text → Text → Bool
text_contains [] sub = has_prefix [] sub
text_contains (c ∷ s) sub = has_prefix (c ∷ s) sub || text_contains s sub

-- strings.TrimPrefix(s, prefix)
abbrev strip : Text → Text → Text
strip s [] = s
strip [] (p ∷ ps) = []
strip (c ∷ s) (p ∷ ps) = strip s ps

unfoldable pub trim_prefix : Text → Text → Text
trim_prefix s prefix = if has_prefix s prefix then strip s prefix else s

pub has_prefix-split : (s p : Text) → has_prefix s p ≡ true → (rest : Text) × (s ≡ p ++ rest)
unfolding has_prefix
has_prefix-split s [] h = (s, refl)
has_prefix-split [] (p ∷ ps) h = cc
has_prefix-split (c ∷ s) (p ∷ ps) h =
    let (rest, e) = has_prefix-split s ps (ground arith) in (rest, ground (arith, e))

pub has_prefix-append : (p rest : Text) → has_prefix (p ++ rest) p ≡ true
unfolding has_prefix
has_prefix-append [] [] = refl
has_prefix-append [] (c ∷ rest) = refl
has_prefix-append (p ∷ ps) rest = ground (arith, has_prefix-append ps rest)

-- `Contains` finds exactly the texts that stand somewhere in s.
pub text_contains-split :
    (s sub : Text)
    → text_contains s sub ≡ true
    → (before : Text) × (after : Text) × (s ≡ before ++ (sub ++ after))
unfolding text_contains
text_contains-split [] sub h = let (rest, e) = has_prefix-split [] sub h in ([], rest, e)
text_contains-split (c ∷ s) sub h = elim (Bool-cases (has_prefix (c ∷ s) sub)) [
  | inl here ↦ let (rest, e) = has_prefix-split (c ∷ s) sub here in ([], rest, e)
  | inr later ↦
      let (before, after, e) = text_contains-split s sub (ground arith) in
      (c ∷ before, after, ground (arith, e))
]

pub text_contains-append :
    (before sub after : Text) → text_contains (before ++ (sub ++ after)) sub ≡ true
unfolding text_contains
text_contains-append [] [] [] = unfold has_prefix in refl
text_contains-append [] [] (c ∷ after) = unfold has_prefix in refl
text_contains-append [] (p ∷ ps) after = ground (arith, has_prefix-append (p ∷ ps) after)
text_contains-append (c ∷ before) sub after = ground (arith, text_contains-append before sub after)
