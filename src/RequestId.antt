-- ===== src/RequestId.antt =====
-- middleware/requestid/request_id.go, and the request identifiers and the sanitizer of
-- internal/logging/logger.go. A Go `range` over a string yields its code points, so the two
-- filters are over lists of code points.
pub mod Laws
use gateway_a.Prelude.{
  ℕ, zero, suc, ◌+◌, ◌-◌, ◌/◌, ◌%◌, ltb, leb, Text, text_eq, codes, Bool, true, false, not, ◌&&◌,
  ◌||◌, Option, none, some, List, [], ◌∷◌, if◌then◌else◌, ◌==◌, insert, nat_eq, hex_digit,
}
use gateway_a.Http.{Action, header, next}

-- The incoming headers that the middleware reads, empty where absent.
pub record Headers : Type 0 where
  pub request_id : Text
  pub trace_id : Text
  pub alternative_request_id : Text

abbrev or_if_empty : Text → Text → Text
or_if_empty [] other = other
or_if_empty (c ∷ s) other = c ∷ s

-- The identifier that Middleware chooses; `generated` is what the generator would return.
unfoldable pub choose_request_id : Headers → Text → Text
choose_request_id h generated =
    or_if_empty (or_if_empty (or_if_empty h.request_id h.trace_id) h.alternative_request_id)
      generated

-- Middleware: the identifier put into the context, and what is done to the response.
unfoldable pub middleware : Headers → Text → Text × List Action
unfolding choose_request_id
middleware h generated =
    let id = choose_request_id h generated in
    (id, header "X-Request-ID" id ∷ header "X-Trace-ID" id ∷ next ∷ [])

-- `%x` of a number, with at most `fuel` digits.
hex_from : ℕ → ℕ → Text → Text
hex_from zero n acc = acc
hex_from (suc f) n acc =
    let more = hex_from f (n / 16) (hex_digit (n % 16) ∷ acc) in
    if ltb n 16 then hex_digit n ∷ acc else more

-- DefaultGenerator.Generate, on the 64 random bits: 16 digits always suffice.
unfoldable pub generate : ℕ → Text
unfolding hex_from
generate bits = hex_from 16 bits []

abbrev pub id_rune : ℕ → Bool
id_rune r =
    (leb b'a' r && leb r b'z')
    || ((leb b'A' r && leb r b'Z') || ((leb b'0' r && leb r b'9') || (r == b'-')))

-- CleanRequestID.
unfoldable pub clean_request_id : List ℕ → List ℕ
clean_request_id [] = []
clean_request_id (r ∷ rs) = let rest = clean_request_id rs in if id_rune r then r ∷ rest else rest

abbrev pub printable : ℕ → Bool
printable r = leb 32 r && not (r == 127)

-- logging.SanitizeString.
unfoldable pub sanitize_string : List ℕ → List ℕ
sanitize_string [] = []
sanitize_string (r ∷ rs) = let rest = sanitize_string rs in if printable r then r ∷ rest else rest

-- PropagateRequestID, for the identifier that the context holds.
unfoldable pub propagate_request_id : Text → List (Text × Text) → List (Text × Text)
propagate_request_id id headers =
    if id == []
    then headers
    else insert (codes "X-Trace-ID") id (insert (codes "X-Request-ID") id headers)
