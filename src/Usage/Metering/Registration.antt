-- ===== src/Usage/Metering/Registration.antt =====
-- internal/handler/helpers.go: init on a registry, before NewMetrics of internal/metrics/prometheus.go.
use gateway_a.Prelude.{
  String, string_eq, true, not, ◌||◌, some, List, [], ◌∷◌, all, Float64, ◌≡◌, refl, arith,
}
use gateway_a.Metrics.{register_metrics}
use gateway_a.Metrics.Client.{Vector, Prometheus, IsLawful}
use gateway_a.Metrics.Vectors.{new_metrics, registered}
use gateway_a.Metrics.Registration.{
  IsFresh, has_name, register_all-fresh, register_metrics-register_metrics,
}
use gateway_a.Usage.Metering.{init, init_registered}

module _ {F : Type 0} ⦃f : Float64 F⦄ (P : Prometheus F) (L : IsLawful P) where
  IsFresh-after :
      (us vs : List Vector) (s t : P.Registry)
      → ((n : String) → L.is_registered t n ≡ (has_name n us || L.is_registered s n))
      → all (λ (v : Vector). not (has_name v.name us)) vs ≡ true
      → IsFresh P L vs s
      → IsFresh P L vs t
  IsFresh-after us [] s t names new h = refl
  IsFresh-after us (v ∷ vs) s t names new h =
      ground (arith, names v.name, IsFresh-after us vs s t names)

  -- On a registry that holds none of their names, init succeeds, and so does NewMetrics behind it:
  -- no counter of the handler has the name of a metric of the server.
  pub register_metrics-init :
      (s : P.Registry)
      → IsFresh P L init_registered s
      → IsFresh P L (registered new_metrics) s
      → (t : P.Registry) × (init P s ≡ some t)
        × ((r : P.Registry) × (register_metrics P t ≡ some r))
  unfolding init new_metrics
  register_metrics-init s mine theirs =
      let (t, e, names, kept) = register_all-fresh P L init_registered s refl mine in
      let (r, g, _, _, _) =
        register_metrics-register_metrics P L t
          (IsFresh-after init_registered (registered new_metrics) s t names refl theirs) in
      (t, e, (r, g))
