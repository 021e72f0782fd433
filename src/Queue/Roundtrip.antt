-- ===== src/Queue/Roundtrip.antt =====
-- Which job Dequeue of pkg/queue/queue.go returns after Enqueue.
use gateway_a.Prelude.{
  Result, Text, text_eq, codes, none, List, [], ◌∷◌, ◌++◌, ok, err, wrapped, ◌≡◌, refl, ap, sym,
  ◌∙◌, arith, beq_refl, if◌then◌else◌,
}
use gateway_a.Queue.Client.{Redis, IsLawful, IsReachable}
use gateway_a.Queue.Reachable.{snoc-ne_nil}
use gateway_a.Queue.{
  Job, Codec, QueueConfig, Moment, enqueue, dequeue, queue_key, normalize_queue, stamped,
  unmarshalled,
}

snoc-injective :
    (xs ys : List Text) (x y : Text) → (xs ++ x ∷ []) ≡ (ys ++ y ∷ []) → (xs ≡ ys) × (x ≡ y)
snoc-injective [] [] x y e = (refl, ground arith)
snoc-injective [] (b ∷ ys) x y e = absurd (snoc-ne_nil ys y (ground arith))
snoc-injective (a ∷ xs) [] x y e = absurd (snoc-ne_nil xs x (ground arith))
snoc-injective (a ∷ xs) (b ∷ ys) x y e =
    let (same, last) = snoc-injective xs ys x y (ground arith) in (ground (arith, same), last)

-- What the JSON package reads from a text, with the prefix of Dequeue on its error.
abbrev pub read_from : {P : Type 0} → Codec P → Text → Result (Job P)
read_from C bytes = elim (C.unmarshal bytes) [
  | ok job ↦ ok job
  | err e ↦ err (wrapped (codes "failed to unmarshal job: ") e)
]

module _ (R : Redis) (L : IsLawful R) (A : IsReachable R L) {P : Type 0} (C : Codec P)
    (q : QueueConfig) where
  -- The last element of a list is the one popped.
  brpop-last :
      (s : R.State) (k v : Text) (l : List Text)
      → L.list_of s k ≡ l ++ v ∷ []
      → ((R.brpop s k).1 ≡ ok v) × (L.list_of (R.brpop s k).0 k ≡ l)
  brpop-last s k v l h =
      let (x, popped) = A.pops s k v l h in
      let (rest, last) = snoc-injective _ _ x v (sym (L.brpop-ok s k x popped) ∙ h) in
      (popped ∙ ap ok last, rest)

  rpush-last : (s : R.State) (k v : Text) → L.list_of (R.rpush s k v).0 k ≡ L.list_of s k ++ v ∷ []
  rpush-last s k v =
      L.rpush-list s k v k (A.pushes s k v)
      ∙ ap (λ b. if b then L.list_of s k ++ v ∷ [] else L.list_of s k) (beq_refl k)

  -- The key of the list that a job is pushed to.
  abbrev pub list_key : Job P → Text
  list_key job = queue_key (normalize_queue q job.queue)

  enqueue-last :
      (m : Moment) (job : Job P) (s : R.State) (bytes : Text)
      → C.marshal (stamped q m job) ≡ ok bytes
      → ((enqueue R C q m job s).1.1 ≡ none)
        × (L.list_of (enqueue R C q m job s).1.0 (list_key job)
            ≡ L.list_of s (list_key job) ++ bytes ∷ [])
  unfolding enqueue
  enqueue-last m job s bytes h = rw h (A.pushes s _ bytes, rpush-last s _ bytes)

  dequeue-last :
      (name : Text) (s : R.State) (bytes : Text) (l : List Text)
      → L.list_of s (queue_key name) ≡ l ++ bytes ∷ []
      → ((dequeue R C q (queue_key name) s).1 ≡ unmarshalled R C q (ok bytes))
        × (L.list_of (dequeue R C q (queue_key name) s).0 (queue_key name) ≡ l)
  unfolding dequeue queue_key
  dequeue-last name s bytes l h =
      let (popped, rest) = brpop-last s (queue_key name) bytes l h in
      (ap (unmarshalled R C q) popped, rest)

  -- Let Redis answer. Then a job that can be written, as Enqueue has completed it, is enqueued without
  -- an error, and Dequeue, given the key of the list that it is pushed to, returns what the JSON package
  -- reads from exactly the text that was written for it, or the error of the reading, and leaves on that
  -- list what was there before.
  pub enqueue-dequeue :
      (m : Moment) (job : Job P) (s : R.State) (bytes : Text)
      → C.marshal (stamped q m job) ≡ ok bytes
      → let pushed = (enqueue R C q m job s).1 in
        let popped = dequeue R C q (list_key job) pushed.0 in
        (pushed.1 ≡ none)
        × (popped.1 ≡ read_from C bytes)
        × (L.list_of popped.0 (list_key job) ≡ L.list_of s (list_key job))
  enqueue-dequeue m job s bytes h =
      let (fine, held) = enqueue-last m job s bytes h in
      let (out, rest) = dequeue-last (normalize_queue q job.queue) _ bytes _ held in
      (fine, out, rest)

  -- Let Redis answer. Of two jobs that can be written and are enqueued one after the other on the same
  -- queue, Dequeue with the key of its list returns what is read from the text of the second one first
  -- and from that of the first one next, and what was on the list before is on it again.
  pub enqueue-dequeue_newest :
      (m1 m2 : Moment) (job1 job2 : Job P) (s : R.State) (bytes1 bytes2 : Text)
      → C.marshal (stamped q m1 job1) ≡ ok bytes1
      → C.marshal (stamped q m2 job2) ≡ ok bytes2
      → list_key job2 ≡ list_key job1
      → let both = (enqueue R C q m2 job2 (enqueue R C q m1 job1 s).1.0).1.0 in
        let popped1 = dequeue R C q (list_key job1) both in
        let popped2 = dequeue R C q (list_key job1) popped1.0 in
        (popped1.1 ≡ read_from C bytes2)
        × (popped2.1 ≡ read_from C bytes1)
        × (L.list_of popped2.0 (list_key job1) ≡ L.list_of s (list_key job1))
  enqueue-dequeue_newest m1 m2 job1 job2 s bytes1 bytes2 h1 h2 same =
      let name = normalize_queue q job1.queue in
      let s1 = (enqueue R C q m1 job1 s).1.0 in
      let (_, held1) = enqueue-last m1 job1 s bytes1 h1 in
      let (_, held2) = enqueue-last m2 job2 s1 bytes2 h2 in
      let s2 = (enqueue R C q m2 job2 s1).1.0 in
      let held =
        ap (L.list_of s2) (sym same) ∙ held2 ∙ ap (λ k. L.list_of s1 k ++ bytes2 ∷ []) same in
      let (out2, rest2) = dequeue-last name _ bytes2 _ held in
      let (out1, rest1) = dequeue-last name _ bytes1 _ (rest2 ∙ held1) in (out2, out1, rest1)
