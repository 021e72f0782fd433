-- ===== src/Metrics/Tests.antt =====
-- The theorems on the metrics at concrete calls.
use gateway_a.Prelude.{codes, string_eq, ◌≡◌, refl, some, ℤ, pos, List, [], ◌∷◌, arith}
use gateway_a.Samples.{whole}
use gateway_a.Metrics.{perform}
use gateway_a.Metrics.Vectors.{new_metrics}
use gateway_a.Metrics.Recordings.{Recording, uses_of_all, request_started, request_completed}
use gateway_a.Metrics.Runs.{in_flight, perform-in_flight}
use gateway_a.Metrics.Memory.{Held, empty, memory, memory-IsLawful}

-- Two requests, of which one is answered.
abbrev calls : List (Recording ℤ)
calls =
    request_started (codes "/v1") (codes "GET")
    ∷ request_started (codes "/v1") (codes "GET")
    ∷ request_completed (codes "/v1") (codes "GET") (pos 3) (pos 200)
    ∷ []

perform-in_flight_example :
    (t : Held) × (perform memory (uses_of_all new_metrics calls) empty ≡ some t)
    × (t.values in_flight (codes "/v1" ∷ codes "GET" ∷ []) ≡ pos 1)
unfolding memory-IsLawful
perform-in_flight_example =
    perform-in_flight memory memory-IsLawful calls (codes "/v1") (codes "GET") empty refl
      (omega arith) refl
