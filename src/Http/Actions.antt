-- ===== src/Http/Actions.antt =====
-- What a list of actions answers: its last action, and the headers that it sets.
use gateway_a.Prelude.{
  Text, text_eq, Option, none, some, List, [], ◌∷◌, ◌++◌, ◌≡◌, refl, arith, if◌then◌else◌, ◌==◌,
  string_eq, String,
}
use gateway_a.Http.{Action, header}

-- The last action, which is where a handler hands the request on or stops it.
unfoldable pub final_action : List Action → Option Action
final_action [] = none
final_action (a ∷ []) = some a
final_action (a ∷ b ∷ rest) = final_action (b ∷ rest)

abbrev pub is_header : String → Action → Option Text
is_header name (header n v) = if n == name then some v else none
is_header name _ = none

-- The value that a header is first given.
unfoldable pub header_of : String → List Action → Option Text
header_of name [] = none
header_of name (a ∷ rest) = elim (is_header name a) [ some v ↦ some v | none ↦ header_of name rest ]

abbrev pub first_of_two : Option Text → Option Text → Option Text
first_of_two (some v) later = some v
first_of_two none later = later

pub header_of-append :
    (name : String) (xs ys : List Action)
    → header_of name (xs ++ ys) ≡ first_of_two (header_of name xs) (header_of name ys)
unfolding header_of
header_of-append name [] ys = refl
header_of-append name (x ∷ xs) ys = ground (arith, header_of-append name xs ys)

pub final_action-append :
    (xs ys : List Action) {a : Action} → final_action ys ≡ some a → final_action (xs ++ ys) ≡ some a
unfolding final_action
final_action-append [] ys h = h
final_action-append (x ∷ []) [] h = cc
final_action-append (x ∷ []) (y ∷ ys) h = h
final_action-append (x ∷ x' ∷ xs) ys h = final_action-append (x' ∷ xs) ys h
