-- ===== src/Queue/Runs.antt =====
-- The operations of pkg/queue/queue.go one after the other, and what the endpoints and the worker find.
use gateway_a.Prelude.{
  if-both, ℤ, Text, codes, false, not, Option, some, List, [], ◌∷◌, Error, has_prefix, All, ◌≡◌,
  refl,
}
use gateway_a.Queue.Client.{Redis, IsLawful}
use gateway_a.Queue.{
  Job, Codec, QueueConfig, Moment, returned, enqueue, dequeue, complete, fail, start, publish,
}
use gateway_a.Queue.Worker.{Worker, Times, Turn, no_job, worker}
use gateway_a.Queue.Api.{error_json, get_job_status, param, or_default_queue}
use gateway_a.Queue.Reachable.{
  Clean, enqueue-Clean, brpop-Clean, del-Clean, start-Clean, fail-Clean, get-Clean, publish-Clean,
  turn-Clean,
}

pub data Operation (R : Redis) (P : Type 0) : Type 0 where
  enqueues : Moment → Job P → Operation R P
  dequeues : Text → Operation R P
  completes : Text → Text → Operation R P
  fails : Text → Text → Option Error → Operation R P
  starts : Moment → Text → Text → Operation R P
  publishes : (channel message : Text) → Operation R P
  works : Worker R P → List Times → Operation R P

abbrev pub IsNoJob : Turn → Type 0
IsNoJob t = (e : Error) × (t ≡ no_job e)

module _ (R : Redis) {P : Type 0} (C : Codec P) (q : QueueConfig) where
  abbrev step : Operation R P → R.State → R.State
  step (enqueues m job) s = (enqueue R C q m job s).1.0
  step (dequeues name) s = (dequeue R C q name s).0
  step (completes job_id name) s = (complete R C q job_id name s).0
  step (fails job_id name cause) s = (fail R C q job_id name cause s).0
  step (starts m job_id name) s = (start R C q m job_id name s).0
  step (publishes channel message) s = (publish R C q channel message s).0
  step (works w times) s = (worker R C q w times s).0

  abbrev pub run : List (Operation R P) → R.State → R.State
  run [] s = s
  run (event ∷ events) s = run events (step event s)

module _ (R : Redis) (L : IsLawful R) {P : Type 0} (C : Codec P) (q : QueueConfig) where
  module _ (other : has_prefix q.default_queue (codes "queue:") ≡ false) where
    -- The worker's loop takes no job, and leaves Redis clean.
    worker-Clean :
        (w : Worker R P) (times : List Times) (s : R.State)
        → Clean R L s
        → Clean R L (worker R C q w times s).0 × All IsNoJob (worker R C q w times s).1
    unfolding worker
    worker-Clean w [] s c = (c, tt)
    worker-Clean w (t ∷ times) s c =
        let (e, h) = turn-Clean R L C q other w t s c in
        let ih = worker-Clean w times (R.brpop s q.default_queue).0 (brpop-Clean R L C q s _ c) in
        rw h (
          if-both (λ (r : R.State × List Turn). Clean R L r.0 × All IsNoJob r.1) (not t.running) _ _
            (c, tt) (ih.0, ((e, refl), ih.1)))

    step-Clean :
        (event : Operation R P) (s : R.State) → Clean R L s → Clean R L (step R C q event s)
    unfolding dequeue complete
    step-Clean (enqueues m job) s c = enqueue-Clean R L C q m job s c
    step-Clean (dequeues name) s c = brpop-Clean R L C q s _ c
    step-Clean (completes job_id name) s c = del-Clean R L C q s _ c
    step-Clean (fails job_id name cause) s c =
        let (e, h) = fail-Clean R L C q job_id name cause s c in rw (step, h) c
    step-Clean (starts m job_id name) s c =
        let (e, h) = start-Clean R L C q m job_id name s c in rw (step, h) c
    step-Clean (publishes channel message) s c = publish-Clean R L C q channel message s c
    step-Clean (works w times) s c = (worker-Clean w times s c).0

    run-Clean :
        (events : List (Operation R P)) (s : R.State) → Clean R L s → Clean R L (run R C q events s)
    run-Clean [] s c = c
    run-Clean (event ∷ events) s c = run-Clean events (step R C q event s) (step-Clean event s c)

    get_job_status-Clean :
        (time_string : ℤ → Text) (params : List (Text × Text)) (s : R.State)
        → Clean R L s
        → get_job_status R C q time_string params s ≡ error_json 404 (codes "Job not found")
    unfolding get_job_status
    get_job_status-Clean time_string params s c =
        let name = or_default_queue (param params (codes "queue")) in
        let (e, h) = get-Clean R L C q (param params (codes "job_id")) name s c in
        rw (get_job_status, h) refl

    -- Let Redis hold nothing under the key of a job, and no list but those of the queues, and let the
    -- name of the default queue not start with "queue:". Whatever operations have been called, in any
    -- order and with any results of Redis, and whatever workers have run, the endpoint that reports a
    -- job answers that there is none, for every job and queue; and Start and Fail change nothing and
    -- return an error.
    pub run-finds_no_job :
        (events : List (Operation R P)) (s : R.State) (time_string : ℤ → Text)
        (params : List (Text × Text)) (m : Moment) (job_id name : Text) (cause : Option Error)
        → Clean R L s
        → let after = run R C q events s in
          (get_job_status R C q time_string params after ≡ error_json 404 (codes "Job not found"))
          × ((e : Error) × (start R C q m job_id name after ≡ (after, some e)))
          × ((e : Error) × (fail R C q job_id name cause after ≡ (after, returned (some e))))
    run-finds_no_job events s time_string params m job_id name cause c =
        let d = run-Clean events s c in
        (
          get_job_status-Clean time_string params _ d,
          start-Clean R L C q m job_id name _ d,
          fail-Clean R L C q job_id name cause _ d,
        )

    -- Let Redis hold nothing under the key of a job, and no list but those of the queues, and let the name
    -- of the default queue not start with "queue:". Then, after any operations, in any order and with any
    -- results of Redis, no worker ever takes a job off the queue, whatever its handlers: of each turn of its
    -- loop the outcome is an error of Dequeue.
    pub run-IsNoJob :
        (events : List (Operation R P)) (s : R.State) (w : Worker R P) (times : List Times)
        → Clean R L s
        → All IsNoJob (worker R C q w times (run R C q events s)).1
    run-IsNoJob events s w times c = (worker-Clean w times _ (run-Clean events s c)).1
