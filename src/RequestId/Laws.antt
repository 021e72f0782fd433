-- ===== src/RequestId/Laws.antt =====
-- What the request identifiers of middleware/requestid/request_id.go and the sanitizers guarantee.
use native.Mathlib.Nat.{pow-suc}
use native.Mathlib.Decide.{dec_lt}
use gateway_a.Prelude.{
  ℕ, zero, suc, ◌+◌, ◌*◌, ◌/◌, ◌%◌, ◌^◌, ◌≤◌, ◌<◌, Text, List, [], ◌∷◌, ◌++◌, All, length, ◌≡◌, ◌≢◌,
  refl, ◌↔◌, ◌⊎◌, arith, text_eq, nat_eq, hex_digit,
}
use gateway_a.RequestId.{
  Headers, choose_request_id, hex_from, generate, clean_request_id, sanitize_string,
}

-- The characters that an identifier may have, as a statement.
abbrev pub IdRune : ℕ → Type 0
IdRune r =
    ((b'a' ≤ r) × (r ≤ b'z'))
    ⊎ (((b'A' ≤ r) × (r ≤ b'Z')) ⊎ (((b'0' ≤ r) × (r ≤ b'9')) ⊎ (r ≡ b'-')))

clean-All : (rs : List ℕ) → All IdRune (clean_request_id rs)
unfolding clean_request_id
clean-All [] = tt
clean-All (r ∷ rs) = ground (arith, clean-All rs)

clean-id : (rs : List ℕ) → All IdRune rs → clean_request_id rs ≡ rs
unfolding clean_request_id
clean-id [] h = refl
clean-id (r ∷ rs) h = ground (arith, clean-id rs h.1)

-- A cleaned identifier holds only letters, digits and hyphens, and cleaning an identifier that
-- holds only those, such as a cleaned one, changes nothing.
pub clean_request_id_lem :
    (rs : List ℕ)
    → All IdRune (clean_request_id rs)
      × (All IdRune rs → clean_request_id rs ≡ rs)
      × (clean_request_id (clean_request_id rs) ≡ clean_request_id rs)
clean_request_id_lem rs = (clean-All rs, clean-id rs, clean-id (clean_request_id rs) (clean-All rs))

-- Cleaning works piece by piece.
pub clean_request_id-append :
    (rs ss : List ℕ) → clean_request_id (rs ++ ss) ≡ clean_request_id rs ++ clean_request_id ss
unfolding clean_request_id
clean_request_id-append [] ss = refl
clean_request_id-append (r ∷ rs) ss = ground (arith, clean_request_id-append rs ss)

abbrev pub Printable : ℕ → Type 0
Printable r = (32 ≤ r) × (r ≢ 127)

-- A text sanitized for the log holds no control character, and one that held none is unchanged.
pub sanitize_string_lem :
    (rs : List ℕ)
    → All Printable (sanitize_string rs) × (All Printable rs → sanitize_string rs ≡ rs)
unfolding sanitize_string
sanitize_string_lem [] = (tt, λ h. refl)
sanitize_string_lem (r ∷ rs) =
    let (ih, same) = sanitize_string_lem rs in (ground (arith, ih), λ h. ground (arith, same h.1))

-- The chosen identifier is not empty, unless the generator's is.
pub choose_request_id-ne :
    (h : Headers) (generated : Text) → generated ≢ [] → choose_request_id h generated ≢ []
unfolding choose_request_id
choose_request_id-ne h generated ne e = ground arith

div-lt_pow : (k n : ℕ) → n < 16 ^ suc k → n / 16 < 16 ^ k
div-lt_pow k n h = let e : 16 ^ suc k ≡ 16 * 16 ^ k = simp pow-suc (omega arith) in omega arith

pow-le_div : (k n : ℕ) → 16 ^ suc k ≤ n → 16 ^ k ≤ n / 16
pow-le_div k n h = let e : 16 ^ suc k ≡ 16 * 16 ^ k = simp pow-suc (omega arith) in omega arith

sixteen-le : (k n : ℕ) → 16 ^ suc k ≤ n → 16 ≤ n
sixteen-le zero n h = h
sixteen-le (suc k) n h =
    let e : 16 ^ suc (suc k) ≡ 16 * 16 ^ suc k = simp pow-suc (omega arith) in
    omega (arith, sixteen-le k (n / 16) (pow-le_div (suc k) n h))

-- Below 16^(k+1) there are at most k + 1 digits, while the fuel allows as many.
hex_from-le :
    (j k n : ℕ) (acc : Text)
    → k ≤ j
    → n < 16 ^ suc k
    → length (hex_from (suc j) n acc) ≤ suc k + length acc
unfolding hex_from
hex_from-le zero k n acc b h = ground arith
hex_from-le (suc j) zero n acc b h = ground arith
hex_from-le (suc j) (suc k) n acc b h = elim (dec_lt n 16) [
  | yes small ↦ ground arith
  | no big ↦
      let ih =
        hex_from-le j k (n / 16) (hex_digit (n % 16) ∷ acc) (omega arith)
          (div-lt_pow (suc k) n h) in
      ground (arith, ih)
]

-- From 16^k on there are more than k digits.
le-hex_from :
    (j k n : ℕ) (acc : Text)
    → k ≤ j
    → 16 ^ k ≤ n
    → suc k + length acc ≤ length (hex_from (suc j) n acc)
unfolding hex_from
le-hex_from zero zero n acc b h = ground arith
le-hex_from (suc j) zero n acc b h = elim (dec_lt n 16) [
  | yes small ↦ ground arith
  | no big ↦
      let ih = le-hex_from j zero (n / 16) (hex_digit (n % 16) ∷ acc) (omega arith) (omega arith) in
      ground (arith, ih)
]
le-hex_from zero (suc k) n acc b h = absurd (omega arith)
le-hex_from (suc j) (suc k) n acc b h =
    let ih = le-hex_from j k (n / 16) (hex_digit (n % 16) ∷ acc) (omega arith) (pow-le_div k n h) in
    ground (arith, ih, sixteen-le k n h)

-- A generated identifier has at most 16 hexadecimal digits, and has all 16 exactly where the four
-- top bits are not all zero: the digits are not padded.
pub generate-length :
    (bits : ℕ)
    → bits < 18446744073709551616
    → (length (generate bits) ≤ 16) × ((length (generate bits) ≡ 16) ↔ (1152921504606846976 ≤ bits))
unfolding generate
generate-length bits h =
    let most = hex_from-le 15 15 bits [] (omega arith) h in
    (
      omega arith,
      (
        λ e. elim (dec_lt bits 1152921504606846976) [
          | yes small ↦
              let less = hex_from-le 15 14 bits [] (omega arith) small in absurd (omega arith)
          | no big ↦ omega arith
        ],
        λ big. let least = le-hex_from 15 15 bits [] (omega arith) big in omega arith,
      ),
    )
