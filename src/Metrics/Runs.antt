-- ===== src/Metrics/Runs.antt =====
-- internal/metrics/prometheus.go: what any sequence of calls of the methods does to the registry.
use gateway_a.Prelude.{
  ℕ, ◌+◌, ◌*◌, ◌≤◌, Text, text_eq, String, string_eq, Bool, true, false, not, ◌&&◌, ◌||◌, none,
  some, List, [], ◌∷◌, length, length-append, All-append, all-append, all, any, pos, sub_ℕ, itoa,
  itoa-ascii, Float64, ◌==◌, if◌then◌else◌, ◌≡◌, ◌↔◌, refl, ap, ◌∙◌, arith, Bool-cases, inl, inr,
}
use gateway_a.Metrics.Client.{Prometheus, IsLawful, fits, texts_eq}
use gateway_a.Metrics.{perform}
use gateway_a.Metrics.Vectors.{new_metrics}
use gateway_a.Metrics.Recordings.{
  Recording, uses, uses_of_all, given, adds_negative, request_started, request_completed,
  llm_tokens, tenant_usage,
}
use gateway_a.Metrics.Counts.{
  incs, decs, Steps, incs-append, decs-append, perform-fits, perform-panics, counted,
}

abbrev pub in_flight : String
in_flight = "gateway_a_requests_in_flight"

module _ {F : Type 0} (endpoint method : Text) where
  abbrev pub starts : List (Recording F) → ℕ
  starts [] = 0
  starts (request_started e m ∷ rs) =
      if e == endpoint && m == method then starts rs + 1 else starts rs
  starts (r ∷ rs) = starts rs

  abbrev pub ends : List (Recording F) → ℕ
  ends [] = 0
  ends (request_completed e m duration status ∷ rs) =
      if e == endpoint && m == method then ends rs + 1 else ends rs
  ends (r ∷ rs) = ends rs

module _ {F : Type 0} ⦃f : Float64 F⦄ (endpoint method : Text) where
  uses-Steps : (r : Recording F) → Steps in_flight (endpoint ∷ method ∷ []) (uses new_metrics r)
  unfolding uses new_metrics
  uses-Steps (request_started e m) = ground arith
  uses-Steps _ = ground arith

  incs-uses :
      (r : Recording F) (rs : List (Recording F))
      → incs in_flight (endpoint ∷ method ∷ []) (uses new_metrics r) + starts endpoint method rs
        ≡ starts endpoint method (r ∷ rs)
  unfolding uses new_metrics
  incs-uses (request_started e m) rs = ground arith
  incs-uses _ rs = ground arith

  decs-uses :
      (r : Recording F) (rs : List (Recording F))
      → decs in_flight (endpoint ∷ method ∷ []) (uses new_metrics r) + ends endpoint method rs
        ≡ ends endpoint method (r ∷ rs)
  unfolding uses new_metrics
  decs-uses (request_started e m) rs = ground arith
  decs-uses _ rs = ground arith

  length-uses : (r : Recording F) → length (uses new_metrics r) ≤ 3
  unfolding uses new_metrics
  length-uses (request_started e m) = omega arith
  length-uses _ = omega arith

  -- The same over a list of calls.
  all-Steps :
      (rs : List (Recording F))
      → Steps in_flight (endpoint ∷ method ∷ []) (uses_of_all new_metrics rs)
  unfolding uses_of_all
  all-Steps [] = tt
  all-Steps (r ∷ rs) =
      All-append _ (uses new_metrics r) (uses_of_all new_metrics rs) (uses-Steps r) (all-Steps rs)

  all-starts :
      (rs : List (Recording F))
      → incs in_flight (endpoint ∷ method ∷ []) (uses_of_all new_metrics rs)
        ≡ starts endpoint method rs
  unfolding uses_of_all
  all-starts [] = refl
  all-starts (r ∷ rs) =
      incs-append in_flight (endpoint ∷ method ∷ []) (uses new_metrics r)
        (uses_of_all new_metrics rs)
      ∙ ap (λ n. incs in_flight (endpoint ∷ method ∷ []) (uses new_metrics r) + n) (all-starts rs)
      ∙ incs-uses r rs

  all-ends :
      (rs : List (Recording F))
      → decs in_flight (endpoint ∷ method ∷ []) (uses_of_all new_metrics rs)
        ≡ ends endpoint method rs
  unfolding uses_of_all
  all-ends [] = refl
  all-ends (r ∷ rs) =
      decs-append in_flight (endpoint ∷ method ∷ []) (uses new_metrics r)
        (uses_of_all new_metrics rs)
      ∙ ap (λ n. decs in_flight (endpoint ∷ method ∷ []) (uses new_metrics r) + n) (all-ends rs)
      ∙ decs-uses r rs

  all-length : (rs : List (Recording F)) → length (uses_of_all new_metrics rs) ≤ 3 * length rs
  unfolding uses_of_all
  all-length [] = omega arith
  all-length (r ∷ rs) = omega (
    arith,
    length-append (uses new_metrics r) (uses_of_all new_metrics rs),
    length-uses r,
    all-length rs,
  )

difference : (a b c d : ℕ) → a ≡ c → b ≡ d → sub_ℕ (0 + a) (0 + b) ≡ sub_ℕ c d
difference a b c d e g = ground arith

module _ {F : Type 0} (P : Prometheus F) where
  -- A call that panics: a label with invalid text, or a negative number for a counter.
  abbrev pub panics : Recording F → Bool
  panics r = adds_negative r || not (all P.is_valid (given r))

module _ {F : Type 0} ⦃f : Float64 F⦄ (P : Prometheus F) (L : IsLawful P) where
  fits-uses : (r : Recording F) → all (fits P) (uses new_metrics r) ≡ not (panics P r)
  unfolding uses new_metrics fits
  fits-uses (request_completed e m duration status) =
      ground (arith, L.ascii-is_valid (itoa status), itoa-ascii status)
  fits-uses (llm_tokens m k count) = ground (arith, L.of_int-is_negative count)
  fits-uses (tenant_usage t m k count) = ground (arith, L.of_int-is_negative count)
  fits-uses (request_started e m) = ground arith
  fits-uses _ = ground arith

  pub all-fits :
      (rs : List (Recording F))
      → all (fits P) (uses_of_all new_metrics rs) ≡ not (any (panics P) rs)
  unfolding uses_of_all
  all-fits [] = refl
  all-fits (r ∷ rs) =
      all-append (fits P) (uses new_metrics r) (uses_of_all new_metrics rs)
      ∙ ground (arith, fits-uses r, all-fits rs)

  -- On any registry, a sequence of calls of the methods of the metrics panics exactly when one of
  -- them is given a label that is not valid UTF-8 or a negative number for a counter, which are
  -- the counts of LLMTokens and TenantUsage.
  pub perform-panics_iff :
      (rs : List (Recording F)) (s : P.Registry)
      → (perform P (uses_of_all new_metrics rs) s ≡ none) ↔ (any (panics P) rs ≡ true)
  perform-panics_iff rs s = elim (Bool-cases (any (panics P) rs)) [
    | inl bad ↦ (
      λ _. bad,
      λ _. perform-panics P L (uses_of_all new_metrics rs) s (all-fits rs ∙ ap not bad),
    )
    | inr good ↦
        let (t, e) = perform-fits P L (uses_of_all new_metrics rs) s (all-fits rs ∙ ap not good) in
        (λ h. cc, λ h. cc)
  ]

  -- After any sequence of calls that are given valid labels and no negative count, the gauge of the
  -- requests in flight of an endpoint and a method, which was zero at first, holds the number of
  -- RequestStarted less the number of RequestCompleted for them, up to 2^53 uses, at most three a
  -- call; no such call panics.
  pub perform-in_flight :
      (rs : List (Recording F)) (endpoint method : Text) (s : P.Registry)
      → any (panics P) rs ≡ false
      → 3 * length rs ≤ 9007199254740992
      → L.value s in_flight (endpoint ∷ method ∷ []) ≡ f.of_int (pos 0)
      → (t : P.Registry) × (perform P (uses_of_all new_metrics rs) s ≡ some t)
        × (L.value t in_flight (endpoint ∷ method ∷ [])
            ≡ f.of_int (sub_ℕ (starts endpoint method rs) (ends endpoint method rs)))
  perform-in_flight rs endpoint method s calm short zeroed =
      let (t, e, v) =
        counted P L in_flight (endpoint ∷ method ∷ []) (uses_of_all new_metrics rs) s 0 0
          (all-Steps endpoint method rs) (all-fits rs ∙ ap not calm)
          (omega (arith, all-length {F = F} endpoint method rs)) zeroed in
      (
        t,
        e,
        v
            ∙ ap f.of_int
                (difference _ _ _ _ (all-starts endpoint method rs) (all-ends endpoint method rs)),
      )
