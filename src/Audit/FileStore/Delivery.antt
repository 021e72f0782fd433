-- ===== src/Audit/FileStore/Delivery.antt =====
-- What becomes of the events that the file store of middleware/audit/audit.go accepts.
use gateway_a.Prelude.{
  ℕ, false, List, [], ◌∷◌, ◌++◌, append-nil, append_assoc, ◌≡◌, refl, sym, ap, ◌∙◌, ◌≢◌, All, arith,
}
use gateway_a.Audit.{AuditEvent}
use gateway_a.Audit.FileStore.{
  FileAuditStore, WriteResult, marshal_failed, open_failed, write_failed, written, Label, saved,
  worked, handed, Step, save, hand_over, tick, take_event, finish, close, Trace, start, step, write,
  write_nonempty, receive, stop, new_file_store,
}

module _ {V : Type 0} where
  abbrev pub accepted : List (Label V) → List (AuditEvent V)
  accepted [] = []
  accepted (saved event ∷ ls) = event ∷ accepted ls
  accepted (worked r ∷ ls) = accepted ls
  accepted (handed event r ∷ ls) = event ∷ accepted ls

  -- No write of the history ended in an error of `file.Write`.
  abbrev pub NoneLost : Label V → Type 0
  NoneLost (saved event) = Unit
  NoneLost (worked r) = r ≢ write_failed
  NoneLost (handed event r) = r ≢ write_failed

  abbrev pub joined : List (List (AuditEvent V)) → List (AuditEvent V)
  joined [] = []
  joined (b ∷ bs) = b ++ joined bs

  -- Everything that the store still holds, in the order in which it was accepted.
  abbrev pub contents : FileAuditStore V → List (AuditEvent V)
  contents s = joined s.file ++ (s.pending ++ s.channel)

  joined-append : (bs cs : List (List (AuditEvent V))) → joined (bs ++ cs) ≡ joined bs ++ joined cs
  joined-append [] cs = refl
  joined-append (b ∷ bs) cs =
      ap (λ es. b ++ es) (joined-append bs cs) ∙ sym (append_assoc b (joined bs) (joined cs))

  accepted-append : (ls ms : List (Label V)) → accepted (ls ++ ms) ≡ accepted ls ++ accepted ms
  accepted-append [] ms = refl
  accepted-append (saved e ∷ ls) ms = ap (λ es. e ∷ es) (accepted-append ls ms)
  accepted-append (worked r ∷ ls) ms = accepted-append ls ms
  accepted-append (handed e r ∷ ls) ms = ap (λ es. e ∷ es) (accepted-append ls ms)

  write_nonempty-contents :
      (r : WriteResult) (s : FileAuditStore V)
      → r ≢ write_failed
      → contents (write_nonempty r s) ≡ contents s
  write_nonempty-contents marshal_failed s h = refl
  write_nonempty-contents open_failed s h = refl
  write_nonempty-contents write_failed s h = absurd (h refl)
  write_nonempty-contents written s h = simp (joined-append, append-nil, append_assoc)

  write-contents :
      (r : WriteResult) (s : FileAuditStore V)
      → r ≢ write_failed
      → contents (write r s) ≡ contents s
  unfolding write
  write-contents r s h = ground (arith, write_nonempty-contents r s h)

  receive-contents :
      (r : WriteResult) (event : AuditEvent V) (rest : List (AuditEvent V)) (s : FileAuditStore V)
      → r ≢ write_failed
      → s.channel ≡ event ∷ rest
      → contents (receive r event rest s) ≡ contents s
  unfolding receive
  receive-contents r event rest s h e =
      let taken = record s { channel = rest; pending = s.pending ++ event ∷ [] } in
      let same : contents taken ≡ contents s = simp (e, append_assoc) in
      ground (arith, write-contents r taken h, same)

  Step-contents :
      {s t : FileAuditStore V} {l : Label V}
      → Step s l t
      → NoneLost l
      → contents t ≡ contents s ++ accepted (l ∷ [])
  unfolding receive
  Step-contents {s} (save event room open_) h = simp append_assoc
  Step-contents {s} (hand_over event r unbuffered nothing run open_) h =
      let sent = record s { channel = event ∷ [] } in
      let same : contents sent ≡ contents s ++ event ∷ [] =
        simp (nothing, append_assoc, append-nil) in
      receive-contents r event [] sent h refl ∙ same
  Step-contents {s} (tick r run) h = write-contents r s h ∙ sym (append-nil (contents s))
  Step-contents {s} (take_event r {event} {rest} run e) h =
      receive-contents r event rest s h e ∙ sym (append-nil (contents s))
  Step-contents {s} (finish r run done) h =
      unfold stop in write-contents r s h ∙ sym (append-nil (contents s))
  Step-contents {s} (close done) h = sym (append-nil (contents s))

  All-init :
      (P : Label V → Type 0) (ls : List (Label V)) (l : Label V)
      → All P (ls ++ l ∷ [])
      → All P ls × P l
  All-init P [] l h = (tt, h.0)
  All-init P (k ∷ ls) l h = let (rest, last) = All-init P ls l h.1 in ((h.0, rest), last)

  -- While no write to an open file fails, the batches in the file, the pending buffer and the
  -- channel hold, in the order of acceptance and each once, exactly the events that Save accepted,
  -- in every interleaving of Save, Close and the writer.
  pub Trace-contents :
      {size : ℕ} {s : FileAuditStore V} {ls : List (Label V)}
      → Trace (new_file_store size) ls s
      → All NoneLost ls
      → contents s ≡ accepted ls
  Trace-contents start h = refl
  Trace-contents (step {ls} {l} trace st) h =
      let (before, now) = All-init NoneLost ls l h in
      Step-contents st now
      ∙ (ap (λ es. es ++ accepted (l ∷ [])) (Trace-contents trace before)
          ∙ sym (accepted-append ls (l ∷ [])))

  stopped-step :
      {s t : FileAuditStore V} {l : Label V}
      → Step s l t
      → s.running ≡ false
      → (t.running ≡ false) × (t.file ≡ s.file) × (t.pending ≡ s.pending)
  stopped-step (save event room open_) h = (h, refl, refl)
  stopped-step (hand_over event r unbuffered nothing run open_) h = cc
  stopped-step (tick r run) h = cc
  stopped-step (take_event r run e) h = cc
  stopped-step (finish r run done) h = cc
  stopped-step (close done) h = (h, refl, refl)

  -- Once the writer has returned, nothing more reaches the file: the events that were then in the
  -- channel, though accepted, are never written.
  pub stopped-file :
      {s t : FileAuditStore V} {ls : List (Label V)}
      → Trace s ls t
      → s.running ≡ false
      → (t.running ≡ false) × (t.file ≡ s.file)
  stopped-file start h = (h, refl)
  stopped-file (step trace st) h =
      let (still, same) = stopped-file trace h in
      let (still', same', _) = stopped-step st still in (still', same' ∙ same)
