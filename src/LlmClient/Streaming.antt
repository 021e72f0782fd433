-- ===== src/LlmClient/Streaming.antt =====
-- What StreamChatCompletion of internal/handler/llm_client.go forwards of a response body.
use gateway_a.Prelude.{
  ltb, length, Text, codes, Option, none, some, List, [], ◌∷◌, ◌++◌, map, select, ◌≡◌, refl, arith,
  Error, wrapped,
}
use gateway_a.LlmClient.{ReadEnd, more, eof, broken, stream_loop}

-- What a read that ends in an error, or in io.EOF, makes the function return.
abbrev pub end_error : ReadEnd → Option Error
end_error more = none
end_error eof = none
end_error (broken e) = some (wrapped (codes "failed to read response: ") e)

-- Whether a read ends the loop.
abbrev pub Ends : ReadEnd → Type 0
Ends more = ⊥
Ends eof = Unit
Ends (broken e) = Unit

-- The callback gets, in order, every chunk that is not empty of the reads before the one that ends
-- the body; the bytes which that last read delivers together with io.EOF or an error are dropped.
pub stream_loop-Ends :
    (chunks : List Text) (last : Text) (closing : ReadEnd) (rest : List (Text × ReadEnd))
    → Ends closing
    → stream_loop (map (λ c. (c, more)) chunks ++ (last, closing) ∷ rest)
      ≡ some (select (λ c. ltb 0 (length c)) chunks, end_error closing)
unfolding stream_loop
stream_loop-Ends [] last more rest h = absurd h
stream_loop-Ends [] last eof rest h = refl
stream_loop-Ends [] last (broken e) rest h = refl
stream_loop-Ends (c ∷ chunks) last closing rest h =
    ground (arith, stream_loop-Ends chunks last closing rest h)
