-- ===== src/Audit/InMemory/Queries.antt =====
-- What the queries of the in-memory store in middleware/audit/audit.go return.
use gateway_a.Prelude.{
  ℕ, zero, suc, ◌+◌, ℤ, pos, negsuc, ltb_ℤ, length, length-append, take, select, Text, Bool, not,
  false, ◌&&◌, List, [], ◌∷◌, ◌++◌, append-nil, append_assoc, ◌≡◌, refl, sym, ◌==◌, text_eq, arith,
}
use gateway_a.Audit.{AuditEvent}
use gateway_a.Audit.InMemory.{get_events, by_action, get_events_by_action}

module _ {V : Type 0} where
  -- The query by user and time range returns, in order, the events of that user whose time is
  -- neither before the start nor after the end.
  pub get_events-select :
      (parse_time : Text → ℤ) (user : Text) (start end_time : ℤ) (events : List (AuditEvent V))
      → get_events parse_time user start end_time events
        ≡ select
            (λ e.
              (e.user_id == user)
              && (not (ltb_ℤ (parse_time e.timestamp) start)
                  && not (ltb_ℤ end_time (parse_time e.timestamp))))
            events
  unfolding get_events
  get_events-select parse_time user start end_time [] = refl
  get_events-select parse_time user start end_time (event ∷ events) =
      ground (arith, get_events-select parse_time user start end_time events)

  abbrev acts : Text → AuditEvent V → Bool
  acts action e = e.action == action

  by_action-unlimited :
      (action : Text) (limit : ℤ) (results events : List (AuditEvent V))
      → ltb_ℤ (pos 0) limit ≡ false
      → by_action action limit results events ≡ results ++ select (acts action) events
  unfolding by_action
  by_action-unlimited action limit results [] h = sym (append-nil results)
  by_action-unlimited action limit results (event ∷ events) h = ground (
    arith,
    by_action-unlimited action limit results events h,
    by_action-unlimited action limit (results ++ event ∷ []) events h,
    append_assoc results (event ∷ []) (select (acts action) events),
  )

  -- With a positive limit m, more than m results are never collected.
  by_action-take :
      (action : Text) (n : ℕ) (results events : List (AuditEvent V)) (m : ℕ)
      → length results + suc n ≡ m
      → by_action action (pos m) results events
        ≡ results ++ take (suc n) (select (acts action) events)
  unfolding by_action
  by_action-take action n results [] m h = sym (append-nil results)
  by_action-take action zero results (event ∷ events) m h =
      ground
        (arith, by_action-take action zero results events m h, length-append results (event ∷ []))
  by_action-take action (suc n) results (event ∷ events) m h = ground (
    arith,
    by_action-take action (suc n) results events m h,
    by_action-take action n (results ++ event ∷ []) events m,
    length-append results (event ∷ []),
    append_assoc results (event ∷ []) (take (suc n) (select (acts action) events)),
  )

  -- The query by action returns the matching events in order: all of them if the limit is not
  -- positive, and the first ones up to the limit otherwise.
  pub get_events_by_action-take :
      (action : Text) (limit : ℤ) (events : List (AuditEvent V))
      → get_events_by_action action limit events ≡ elim limit [
        | pos (suc n) ↦ take (suc n) (select (λ e. e.action == action) events)
        | _ ↦ select (λ e. e.action == action) events
      ]
  unfolding get_events_by_action
  get_events_by_action-take action (pos zero) events =
      by_action-unlimited action (pos zero) [] events refl
  get_events_by_action-take action (pos (suc n)) events =
      by_action-take action n [] events (suc n) (omega arith)
  get_events_by_action-take action (negsuc n) events =
      by_action-unlimited action (negsuc n) [] events (ground arith)
