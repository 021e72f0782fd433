-- ===== src/Queue/Reachable.antt =====
-- What the operations of pkg/queue/queue.go leave in Redis: no entry under the key of a job, and no
-- list but those of Enqueue.
use gateway_a.Prelude.{
  Text, text_eq, codes, true, false, Option, some, List, [], ◌∷◌, ◌++◌, ◌==◌, Error, Result, ok,
  err, has_prefix, has_prefix-append, ◌≡◌, ◌≢◌, refl, sym, ◌∙◌, arith,
}
use gateway_a.Queue.Client.{Redis, IsLawful}
use gateway_a.Queue.{
  Job, Codec, QueueConfig, Moment, returned, enqueue, dequeue, get, fail, start, publish, queue_key,
  job_key, stamped, unmarshalled, push_marshalled,
}
use gateway_a.Queue.Worker.{Worker, Times, no_job, turn}

-- Nothing is stored under the key of a job, and only the keys of Enqueue hold lists.
pub record Clean (R : Redis) (L : IsLawful R) (s : R.State) : Type 0 where
  pub no_job_entry : (j x : Text) → L.string_of s j ≡ some x → has_prefix j (codes "job:") ≡ false
  pub other_lists : (k : Text) → has_prefix k (codes "queue:") ≡ false → L.list_of s k ≡ []

pub snoc-ne_nil : (xs : List Text) (x : Text) → (xs ++ x ∷ []) ≢ []
snoc-ne_nil [] x = ground arith
snoc-ne_nil (y ∷ xs) x = ground arith

-- A key with a prefix is not one without it.
differs : (j k p : Text) → has_prefix k p ≡ true → has_prefix j p ≡ false → (j == k) ≡ false
differs j k p with_p without = ground (arith, text_eq.beq_iff j k)

module _ (R : Redis) (L : IsLawful R) {P : Type 0} (C : Codec P) (q : QueueConfig) where
  rpush-Clean :
      (s : R.State) (k v : Text)
      → has_prefix k (codes "queue:") ≡ true
      → Clean R L s
      → Clean R L (R.rpush s k v).0
  rpush-Clean s k v h c = record {
    no_job_entry = λ j x e. c.no_job_entry j x (L.rpush-string s k v j x e);
    other_lists =
        λ j n. L.rpush-other s k v j (differs j k (codes "queue:") h n) ∙ c.other_lists j n;
  }

  pub brpop-Clean : (s : R.State) (k : Text) → Clean R L s → Clean R L (R.brpop s k).0
  brpop-Clean s k c = record {
    no_job_entry = λ j x e. c.no_job_entry j x (L.brpop-string s k j x e);
    other_lists = λ j n. L.brpop-nil s k j (c.other_lists j n);
  }

  pub del-Clean : (s : R.State) (k : Text) → Clean R L s → Clean R L (R.del s k).0
  del-Clean s k c = record {
    no_job_entry = λ j x e. c.no_job_entry j x (L.del-string s k j x e);
    other_lists = λ j n. L.del-list s k j ∙ c.other_lists j n;
  }

  pub publish-Clean :
      (channel message : Text) (s : R.State)
      → Clean R L s
      → Clean R L (publish R C q channel message s).0
  unfolding publish
  publish-Clean channel message s c = record {
    no_job_entry = λ j x e. c.no_job_entry j x (L.publish-string s _ message j x e);
    other_lists = λ j n. L.publish-list s _ message j ∙ c.other_lists j n;
  }

  push_marshalled-Clean :
      (k : Text) (r : Result Text) (s : R.State)
      → has_prefix k (codes "queue:") ≡ true
      → Clean R L s
      → Clean R L (push_marshalled R C q k r s).0
  push_marshalled-Clean k (ok v) s h c = rpush-Clean s k v h c
  push_marshalled-Clean k (err e) s h c = c

  pub enqueue-Clean :
      (m : Moment) (job : Job P) (s : R.State) → Clean R L s → Clean R L (enqueue R C q m job s).1.0
  unfolding enqueue queue_key
  enqueue-Clean m job s c =
      push_marshalled-Clean _ _ s (has_prefix-append (codes "queue:") (stamped q m job).queue) c

  unmarshalled-err :
      (r : Result Text) → ((v : Text) → r ≢ ok v) → (e : Error) × (unmarshalled R C q r ≡ err e)
  unmarshalled-err (err e) none_ok = (e, refl)
  unmarshalled-err (ok v) none_ok = absurd (none_ok v refl)

  no_job_key :
      (s : R.State) (k v : Text)
      → Clean R L s
      → has_prefix k (codes "job:") ≡ true
      → R.get s k ≢ ok v
  no_job_key s k v c h e = ground (arith, c.no_job_entry k v (L.get-ok s k v e))

  -- No job is found.
  pub get-Clean :
      (job_id name : Text) (s : R.State)
      → Clean R L s
      → (e : Error) × (get R C q job_id name s ≡ err e)
  unfolding get job_key
  get-Clean job_id name s c =
      unmarshalled-err _ (λ v. no_job_key s _ v c (has_prefix-append (codes "job:") _))

  pub start-Clean :
      (m : Moment) (job_id name : Text) (s : R.State)
      → Clean R L s
      → (e : Error) × (start R C q m job_id name s ≡ (s, some e))
  unfolding start
  start-Clean m job_id name s c = let (e, h) = get-Clean job_id name s c in (e, rw (start, h) refl)

  pub fail-Clean :
      (job_id name : Text) (cause : Option Error) (s : R.State)
      → Clean R L s
      → (e : Error) × (fail R C q job_id name cause s ≡ (s, returned (some e)))
  unfolding fail
  fail-Clean job_id name cause s c =
      let (e, h) = get-Clean job_id name s c in (e, rw (fail, h) refl)

  module _ (other : has_prefix q.default_queue (codes "queue:") ≡ false) where
    no_default_job : (s : R.State) (v : Text) → Clean R L s → (R.brpop s q.default_queue).1 ≢ ok v
    no_default_job s v c e =
        let h = L.brpop-ok s q.default_queue v e in
        let n = c.other_lists q.default_queue other in snoc-ne_nil _ v (sym h ∙ n)

    -- A turn of the worker takes no job.
    pub turn-Clean :
        (w : Worker R P) (t : Times) (s : R.State)
        → Clean R L s
        → (e : Error) × (turn R C q w t s ≡ ((R.brpop s q.default_queue).0, no_job e))
    unfolding turn dequeue
    turn-Clean w t s c =
        let (e, h) = unmarshalled-err (R.brpop s q.default_queue).1 (λ v. no_default_job s v c) in
        (e, rw h refl)
