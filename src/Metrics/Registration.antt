-- ===== src/Metrics/Registration.antt =====
-- internal/metrics/prometheus.go: NewMetrics on a registry.
use gateway_a.Prelude.{
  Text, String, string_eq, Bool, true, false, not, ◌&&◌, ◌||◌, none, some, List, [], ◌∷◌, all, any,
  Float64, ◌==◌, if◌then◌else◌, ◌≡◌, refl, ◌∙◌, arith,
}
use gateway_a.Metrics.Client.{Vector, Prometheus, IsLawful}
use gateway_a.Metrics.{register_all, register_metrics}
use gateway_a.Metrics.Vectors.{new_metrics, registered}

abbrev pub has_name : String → List Vector → Bool
has_name n vs = any (λ v. v.name == n) vs

abbrev pub distinct : List Vector → Bool
distinct [] = true
distinct (v ∷ vs) = not (has_name v.name vs) && distinct vs

registered-distinct : distinct (registered new_metrics) ≡ true
unfolding new_metrics
registered-distinct = refl

module _ {F : Type 0} ⦃f : Float64 F⦄ (P : Prometheus F) (L : IsLawful P) where
  abbrev pub IsFresh : List Vector → P.Registry → Type 0
  IsFresh vs s = all (λ v. not (L.is_registered s v.name)) vs ≡ true

  IsFresh-kept :
      (v : Vector) (vs : List Vector) (s t : P.Registry)
      → ((n : String) → L.is_registered t n ≡ (if v.name == n then true else L.is_registered s n))
      → has_name v.name vs ≡ false
      → IsFresh vs s
      → IsFresh vs t
  IsFresh-kept v [] s t names new h = refl
  IsFresh-kept v (w ∷ vs) s t names new h = ground (
    arith,
    names w.name,
    string_eq.beq_iff v.name w.name,
    string_eq.beq_iff w.name v.name,
    IsFresh-kept v vs s t names,
  )

  pub register_all-fresh :
      (vs : List Vector) (s : P.Registry)
      → distinct vs ≡ true
      → IsFresh vs s
      → (t : P.Registry) × (register_all P vs s ≡ some t)
        × ((n : String) → L.is_registered t n ≡ (has_name n vs || L.is_registered s n))
        × ((n : String) (ls : List Text) → L.value t n ls ≡ L.value s n ls)
  register_all-fresh [] s d h = (s, refl, λ n. refl, λ n ls. refl)
  register_all-fresh (v ∷ vs) s d h =
      let (t, e, names, kept) = L.register-new v s (ground arith) in
      let (r, g, names', kept') =
        register_all-fresh vs t (ground arith)
          (IsFresh-kept v vs s t names (ground arith) (ground arith)) in
      (
        r,
        rw (register_all, e) g,
        λ n. ground (arith, names n, names' n),
        λ n ls. kept' n ls ∙ kept n ls,
      )

  abbrev FirstKnown : List Vector → P.Registry → Type 0
  FirstKnown [] s = ⊥
  FirstKnown (v ∷ vs) s = L.is_registered s v.name ≡ true

  register_all-known :
      (vs : List Vector) (s : P.Registry) → FirstKnown vs s → register_all P vs s ≡ none
  register_all-known [] s h = absurd h
  register_all-known (v ∷ vs) s h = rw (register_all, L.register-known v s h) refl

  -- On a registry that holds none of its nineteen names, NewMetrics succeeds, registers exactly
  -- these names beside those that were there and changes no value; a second call of it panics.
  pub register_metrics-register_metrics :
      (s : P.Registry)
      → IsFresh (registered new_metrics) s
      → (t : P.Registry) × (register_metrics P s ≡ some t)
        × ((n : String)
            → L.is_registered t n ≡ (has_name n (registered new_metrics) || L.is_registered s n))
        × ((n : String) (ls : List Text) → L.value t n ls ≡ L.value s n ls)
        × (register_metrics P t ≡ none)
  unfolding register_metrics new_metrics
  register_metrics-register_metrics s fresh =
      let (t, e, names, kept) =
        register_all-fresh (registered new_metrics) s registered-distinct fresh in
      (
        t,
        e,
        names,
        kept,
        register_all-known (registered new_metrics) t (names "gateway_a_requests_total"),
      )
