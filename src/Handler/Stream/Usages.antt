-- ===== src/Handler/Stream/Usages.antt =====
-- What extractUsageFromStreamBuffer of internal/handler/helpers.go finds in the buffer that
-- streamChatCompletion fills.
use gateway_a.Prelude.{
  nat_eq, ◌==◌, Text, Bool-cases, Option, none, List, [], ◌∷◌, ◌++◌, ◌≡◌, refl, sym, ap, ◌∙◌, arith,
  inl, inr,
}
use gateway_a.Usage.{Usage}
use gateway_a.Handler.Stream.{
  Decoder, split_lines, usage_of_line, or_later, last_usage, or_no_usage, extract_usage, buffer,
}

split_lines-cons : (s : Text) → (l : Text) × (ls : List Text) × (split_lines s ≡ l ∷ ls)
unfolding split_lines
split_lines-cons [] = ([], [], refl)
split_lines-cons (c ∷ s) = elim (Bool-cases (c == 10)) [
  | inl newline ↦ ([], split_lines s, ground (arith, newline))
  | inr other ↦ let (l, ls, e) = split_lines-cons s in (c ∷ l, ls, ground (arith, other, e))
]

-- A line that ends splits the text.
pub split_lines-append : (s t : Text) → split_lines (s ++ (10 ∷ t)) ≡ split_lines s ++ split_lines t
unfolding split_lines
split_lines-append [] t = refl
split_lines-append (c ∷ s) t =
    let (l, ls, e) = split_lines-cons s in ground (arith, e, split_lines-append s t)

module _ (decoder : Decoder) where
  last_usage-append :
      (xs ys : List Text)
      → last_usage decoder (xs ++ ys) ≡ or_later (last_usage decoder xs) (last_usage decoder ys)
  unfolding last_usage
  last_usage-append [] ys = ground arith
  last_usage-append (x ∷ xs) ys = ground (arith, last_usage-append xs ys)

  -- The usage of the last chunk that holds one by itself.
  abbrev pub usage_of_chunks : List Text → Option Usage
  usage_of_chunks [] = none
  usage_of_chunks (c ∷ chunks) =
      or_later (last_usage decoder (split_lines c)) (usage_of_chunks chunks)

  no_usage-nil : decoder.trim_space [] ≡ [] → last_usage decoder (split_lines []) ≡ none
  unfolding last_usage split_lines usage_of_line
  no_usage-nil h = rw h refl

  last_usage-buffer :
      (chunks : List Text)
      → decoder.trim_space [] ≡ []
      → last_usage decoder (split_lines (buffer chunks)) ≡ usage_of_chunks chunks
  unfolding buffer
  last_usage-buffer [] h = no_usage-nil h
  last_usage-buffer (c ∷ chunks) h =
      ap (last_usage decoder) (split_lines-append c (buffer chunks))
      ∙ last_usage-append (split_lines c) (split_lines (buffer chunks))
      ∙ ap (or_later (last_usage decoder (split_lines c))) (last_usage-buffer chunks h)

  extract_usage-lines :
      (s : Text)
      → decoder.trim_space [] ≡ []
      → extract_usage decoder s ≡ or_no_usage (last_usage decoder (split_lines s))
  unfolding extract_usage
  extract_usage-lines [] h = ap or_no_usage (sym (no_usage-nil h))
  extract_usage-lines (c ∷ s) h = refl

  -- The usage of a stream is that of the last chunk of it that holds, by itself, a whole line with a
  -- usage of more than no tokens: a line that two reads of the body share is never seen. TrimSpace
  -- leaves the empty text empty.
  pub extract_usage-buffer :
      (chunks : List Text)
      → decoder.trim_space [] ≡ []
      → extract_usage decoder (buffer chunks) ≡ or_no_usage (usage_of_chunks chunks)
  extract_usage-buffer chunks h =
      extract_usage-lines (buffer chunks) h ∙ ap or_no_usage (last_usage-buffer chunks h)
