-- ===== src/Audit/InMemory/History.antt =====
-- The in-memory store of middleware/audit/audit.go holds the last events of its history.
use gateway_a.Prelude.{
  ℕ, ◌-◌, ◌≤◌, pos, negsuc, ◌-ℤ◌, length, length-append, length-drop, drop, drop-drop,
  drop-length_append, none, some, List, [], ◌∷◌, ◌++◌, append-nil, append_assoc, ◌≡◌, sym, ap, ◌∙◌,
  arith,
}
use gateway_a.Audit.{AuditEvent}
use gateway_a.Audit.InMemory.{InMemoryAuditStore, save, batch_save}

module _ {A : Type 0} where
  -- The last m elements.
  abbrev pub last : ℕ → List A → List A
  last m xs = drop (length xs - m) xs

  pub length-last : (m : ℕ) (xs : List A) → length (last m xs) ≤ m
  length-last m xs = omega (arith, length-drop (length xs - m) xs)

  pub last_short : (m : ℕ) (xs : List A) → length xs ≤ m → last m xs ≡ xs
  last_short m xs h = let e : length xs - m ≡ 0 = omega arith in ap (λ (k : ℕ). drop k xs) e

  -- Trimming before more is appended makes no difference.
  pub last-append : (m : ℕ) (xs ys : List A) → last m (last m xs ++ ys) ≡ last m (xs ++ ys)
  last-append m xs ys =
      ap (λ zs. last m zs) (sym (drop-length_append (length xs - m) xs ys (omega arith)))
      ∙ (drop-drop _ (length xs - m) (xs ++ ys)
          ∙ ap (λ (k : ℕ). drop k (xs ++ ys))
              (omega (arith, length-append xs ys, length-drop (length xs - m) (xs ++ ys))))

module _ {V : Type 0} where
  -- With a limit that is not negative, saving an event appends it and keeps the last `max_events`
  -- events.
  pub save-last :
      (event : AuditEvent V) (store : InMemoryAuditStore V) (m : ℕ)
      → store.max_events ≡ pos m
      → save event store ≡ some (record store { events = last m (store.events ++ event ∷ []) })
  unfolding save ◌-ℤ◌
  save-last event store m h = ground arith

  save-negative :
      (event : AuditEvent V) (store : InMemoryAuditStore V) (n : ℕ)
      → store.max_events ≡ negsuc n
      → save event store ≡ none
  unfolding save ◌-ℤ◌
  save-negative event store n h = ground arith

  -- From a store that is not over its limit, saving a batch keeps, in order, the last `max_events`
  -- of the stored events and the new ones together.
  pub batch_save-last :
      (events : List (AuditEvent V)) (store : InMemoryAuditStore V) (m : ℕ)
      → store.max_events ≡ pos m
      → length store.events ≤ m
      → batch_save events store ≡ some (record store { events = last m (store.events ++ events) })
  unfolding batch_save
  batch_save-last [] store m h fits =
      let e : last m (store.events ++ []) ≡ store.events =
        ap (last m) (append-nil store.events) ∙ last_short m store.events fits in
      ap (λ es. some (record store { events = es })) (sym e)
  batch_save-last (event ∷ events) store m h fits =
      let kept = store.events ++ event ∷ [] in
      let store' = record store { events = last m kept } in
      rw (save-last event store m h, batch_save)
        (batch_save-last events store' m h (length-last m kept)
          ∙ ap (λ es. some (record store { events = es }))
              (last-append m kept events
                ∙ ap (last m) (append_assoc store.events (event ∷ []) events)))
