-- ===== src/Metrics/Counts.antt =====
-- internal/metrics/prometheus.go: what a list of uses of the Prometheus client does.
use gateway_a.Prelude.{
  ℕ, suc, ◌+◌, ◌≤◌, Text, String, string_eq, Bool, true, false, not, ◌&&◌, ◌||◌, none, some, List,
  [], ◌∷◌, ◌++◌, length, All, all, pos, negsuc, sub_ℕ, ◌+ℤ◌, Float64, ◌==◌, if◌then◌else◌, ◌≡◌,
  refl, ap, ◌∙◌, arith, Bool-cases, inl, inr,
}
use gateway_a.Metrics.Client.{
  Use, Change, inc, dec, added, put, observed, Prometheus, IsLawful, fits, changed, texts_eq,
}
use gateway_a.Metrics.{perform}

-- How the uses count up and down at one place.
module _ {F : Type 0} where
  abbrev pub is_inc : Change F → Bool
  is_inc inc = true
  is_inc _ = false

  abbrev pub is_dec : Change F → Bool
  is_dec dec = true
  is_dec _ = false

  module _ (name : String) (values : List Text) where
    abbrev pub at : Use F → Bool
    at u = u.vector.name == name && u.values == values

    abbrev pub incs : List (Use F) → ℕ
    incs [] = 0
    incs (u ∷ us) = if at u && is_inc u.change then incs us + 1 else incs us

    abbrev pub decs : List (Use F) → ℕ
    decs [] = 0
    decs (u ∷ us) = if at u && is_dec u.change then decs us + 1 else decs us

    abbrev pub Steps : List (Use F) → Type 0
    Steps = All λ u. (not (at u) || (is_inc u.change || is_dec u.change)) ≡ true

    pub incs-append : (us vs : List (Use F)) → incs (us ++ vs) ≡ incs us + incs vs
    incs-append [] vs = omega arith
    incs-append (u ∷ us) vs = ground (arith, incs-append us vs)

    pub decs-append : (us vs : List (Use F)) → decs (us ++ vs) ≡ decs us + decs vs
    decs-append [] vs = omega arith
    decs-append (u ∷ us) vs = ground (arith, decs-append us vs)

sub_ℕ-inc : (a b : ℕ) → sub_ℕ a b +ℤ pos 1 ≡ sub_ℕ (a + 1) b
unfolding ◌+ℤ◌
sub_ℕ-inc a b = ground arith

sub_ℕ-dec : (a b : ℕ) → sub_ℕ a b +ℤ negsuc 0 ≡ sub_ℕ a (b + 1)
unfolding ◌+ℤ◌
sub_ℕ-dec a b = ground arith

module _ {F : Type 0} ⦃f : Float64 F⦄ (P : Prometheus F) (L : IsLawful P) where
  pub perform-fits :
      (us : List (Use F)) (s : P.Registry)
      → all (fits P) us ≡ true
      → (t : P.Registry) × (perform P us s ≡ some t)
  perform-fits [] s h = (s, refl)
  perform-fits (u ∷ us) s h =
      let (t, e, _) = L.update-fits u s (ground arith) in
      let (r, g) = perform-fits us t (ground arith) in (r, rw (perform, e) g)

  pub perform-panics :
      (us : List (Use F)) (s : P.Registry) → all (fits P) us ≡ false → perform P us s ≡ none
  perform-panics [] s h = cc
  perform-panics (u ∷ us) s h = elim (Bool-cases (fits P u)) [
    | inl fit ↦
        let (t, e, _) = L.update-fits u s fit in
        rw (perform, e) (perform-panics us t (ground arith))
    | inr misfit ↦ rw (perform, L.update-panics u s misfit) refl
  ]

  -- The value at one place behind a list of uses, from the value before.
  abbrev pub value_after : List (Use F) → String → List Text → F → F
  value_after [] name values x = x
  value_after (u ∷ us) name values x =
      value_after us name values (if at name values u then changed P u.change x else x)

  pub perform-value_after :
      (us : List (Use F)) (s : P.Registry)
      → all (fits P) us ≡ true
      → (t : P.Registry) × (perform P us s ≡ some t)
        × ((n : String) (ls : List Text) → L.value t n ls ≡ value_after us n ls (L.value s n ls))
  perform-value_after [] s h = (s, refl, λ n ls. refl)
  perform-value_after (u ∷ us) s h =
      let (t, e, value) = L.update-fits u s (ground arith) in
      let (r, g, values) = perform-value_after us t (ground arith) in
      (r, rw (perform, e) g, λ n ls. values n ls ∙ ap (value_after us n ls) (value n ls))

  -- What one use does at a place where it counts up, down or not at all.
  stepped :
      (here : Bool) (c : Change F) (x : F) (a b n : ℕ)
      → (not here || (is_inc c || is_dec c)) ≡ true
      → a + b + suc n ≤ 9007199254740992
      → x ≡ f.of_int (sub_ℕ a b)
      → (if here then changed P c x else x)
        ≡ f.of_int (
            sub_ℕ
              (a + (if here && is_inc c then 1 else 0))
              (b + (if here && is_dec c then 1 else 0)))
  unfolding changed
  stepped false c x a b n steps bound held = held ∙ ap f.of_int (ground arith)
  stepped true inc x a b n steps bound held =
      ap (λ y. P.plus y (f.of_int (pos 1))) held
      ∙ L.plus-exact (sub_ℕ a b) (pos 1) (ground arith) (omega arith)
          (rw (sub_ℕ-inc a b) (ground arith))
      ∙ ap f.of_int (sub_ℕ-inc a b ∙ ground arith)
  stepped true dec x a b n steps bound held =
      ap (λ y. P.plus y (f.of_int (negsuc 0))) held
      ∙ L.plus-exact (sub_ℕ a b) (negsuc 0) (ground arith) (omega arith)
          (rw (sub_ℕ-dec a b) (ground arith))
      ∙ ap f.of_int (sub_ℕ-dec a b ∙ ground arith)
  stepped true (added y) x a b n steps bound held = cc
  stepped true (put y) x a b n steps bound held = cc
  stepped true (observed y) x a b n steps bound held = cc

  -- A gauge or counter that only counts holds the difference of the two counts.
  pub counted :
      (name : String) (values : List Text) (us : List (Use F)) (s : P.Registry) (a b : ℕ)
      → Steps name values us
      → all (fits P) us ≡ true
      → a + b + length us ≤ 9007199254740992
      → L.value s name values ≡ f.of_int (sub_ℕ a b)
      → (t : P.Registry) × (perform P us s ≡ some t)
        × (L.value t name values
            ≡ f.of_int (sub_ℕ (a + incs name values us) (b + decs name values us)))
  counted name values [] s a b steps fit bound held = (s, refl, held ∙ ap f.of_int (ground arith))
  counted name values (u ∷ us) s a b steps fit bound held =
      let (t, e, value) = L.update-fits u s (ground arith) in
      let here : Bool = at name values u in
      let (r, g, v) =
        counted name values us t (a + (if here && is_inc u.change then 1 else 0))
          (b + (if here && is_dec u.change then 1 else 0)) steps.1 (ground arith) (ground arith)
          (value name values
            ∙ stepped here u.change (L.value s name values) a b (length us) steps.0 bound held) in
      (r, rw (perform, e) g, v ∙ ap f.of_int (ground arith))
