-- ===== src/Validation/Sanitize.antt =====
-- sanitizeString of middleware/validation/validation.go. `trim_space` is strings.TrimSpace, a
-- parameter for its table of Unicode spaces.
use gateway_a.Prelude.{
  ℕ, zero, suc, ℤ, pos, negsuc, Text, Bool, true, false, ◌||◌, [], ◌∷◌, length, take, All, ◌==◌,
  nat_eq, ltb, ◌≡◌, refl, ap, ◌∙◌, length-take-le, arith, if◌then◌else◌, ◌≤ℤ◌, ◌<ℤ◌,
}

-- `\s`: tab, line feed, form feed, carriage return, space.
abbrev pub is_space : ℕ → Bool
is_space c = (c == 9) || ((c == 10) || ((c == 12) || ((c == 13) || (c == 32))))

-- The replacement of every run of `\s` by one space; the flag tells whether the byte before was in
-- such a run.
normalize_from : Bool → Text → Text
normalize_from in_run [] = []
normalize_from in_run (c ∷ s) =
    let inside = normalize_from true s in
    let outside = normalize_from false s in
    if is_space c then (if in_run then inside else 32 ∷ inside) else c ∷ outside

-- `[<>"']`
abbrev pub is_dangerous : ℕ → Bool
is_dangerous c = (c == b'<') || ((c == b'>') || ((c == 34) || (c == 39)))

remove_dangerous : Text → Text
remove_dangerous [] = []
remove_dangerous (c ∷ s) =
    let rest = remove_dangerous s in if is_dangerous c then rest else c ∷ rest

abbrev pub limit_length : ℤ → Text → Text
limit_length (pos (suc m)) s = if ltb (suc m) (length s) then take (suc m) s else s
limit_length _ s = s

unfoldable pub sanitize_text : (Text → Text) → ℤ → Text → Text
unfolding normalize_from remove_dangerous
sanitize_text trim_space max_len s =
    limit_length max_len (remove_dangerous (normalize_from false (trim_space s)))

abbrev pub Harmless : ℕ → Type 0
Harmless c = is_dangerous c ≡ false

remove_dangerous-All : (s : Text) → All Harmless (remove_dangerous s)
unfolding remove_dangerous
remove_dangerous-All [] = tt
remove_dangerous-All (c ∷ s) = ground (arith, remove_dangerous-All s)

take-Harmless : (n : ℕ) (s : Text) → All Harmless s → All Harmless (take n s)
take-Harmless zero s h = tt
take-Harmless (suc n) [] h = tt
take-Harmless (suc n) (c ∷ s) (h, t) = (h, take-Harmless n s t)

limit_length-Harmless : (m : ℤ) (s : Text) → All Harmless s → All Harmless (limit_length m s)
limit_length-Harmless (pos zero) s h = h
limit_length-Harmless (negsuc n) s h = h
limit_length-Harmless (pos (suc m)) s h = ground (arith, take-Harmless (suc m) s h)

length-limit_length : (m : ℤ) (s : Text) → pos 0 <ℤ m → pos (length (limit_length m s)) ≤ℤ m
length-limit_length (pos zero) s h = absurd (omega arith)
length-limit_length (negsuc n) s h = absurd (omega arith)
length-limit_length (pos (suc m)) s h = ground (arith, length-take-le (suc m) s)

-- Neither a space nor dangerous.
abbrev pub Plain : ℕ → Type 0
Plain c = (is_space c ≡ false) × (is_dangerous c ≡ false)

normalize_from-Plain : (s : Text) (b : Bool) → All Plain s → normalize_from b s ≡ s
unfolding normalize_from
normalize_from-Plain [] b h = refl
normalize_from-Plain (c ∷ s) b ((p, q), h) = ground (arith, p, normalize_from-Plain s false h)

remove_dangerous-Plain : (s : Text) → All Plain s → remove_dangerous s ≡ s
unfolding remove_dangerous
remove_dangerous-Plain [] h = refl
remove_dangerous-Plain (c ∷ s) ((p, q), h) = ground (arith, q, remove_dangerous-Plain s h)

-- A sanitized text has none of the four dangerous characters, and is no longer than a positive
-- limit; a text without spaces and dangerous characters that trimming leaves as it is, is only cut
-- to the limit.
pub sanitize_text_lem :
    (trim_space : Text → Text) (m : ℤ) (s : Text)
    → All Harmless (sanitize_text trim_space m s)
      × (pos 0 <ℤ m → pos (length (sanitize_text trim_space m s)) ≤ℤ m)
      × (All Plain s → trim_space s ≡ s → sanitize_text trim_space m s ≡ limit_length m s)
unfolding sanitize_text
sanitize_text_lem trim_space m s =
    let body = remove_dangerous (normalize_from false (trim_space s)) in
    (
      limit_length-Harmless m body (remove_dangerous-All (normalize_from false (trim_space s))),
      length-limit_length m body,
      λ h e.
          ap (λ t. limit_length m (remove_dangerous (normalize_from false t))) e
          ∙ (ap (λ t. limit_length m (remove_dangerous t)) (normalize_from-Plain s false h)
              ∙ ap (limit_length m) (remove_dangerous-Plain s h)),
    )
