-- ===== src/Queue/Worker.antt =====
-- pkg/queue/queue.go: the worker, which takes jobs off the default queue.
use gateway_a.Prelude.{
  Text, text_eq, codes, Bool, true, false, Option, none, some, List, [], ◌∷◌, ◌++◌, Error, message,
  Result, ok, err, lookup, insert, not, if◌then◌else◌,
}
use gateway_a.Queue.Client.{Redis}
use gateway_a.Queue.{
  Job, Codec, QueueConfig, Moment, Ended, panicked, dequeue, fail, start, complete,
}

-- The interface JobHandler: what Handle does to Redis, and its error.
abbrev pub JobHandler : Redis → Type 0 → Type 0
JobHandler R P = Moment → Job P → R.State → R.State × Option Error

pub record Worker (R : Redis) (P : Type 0) : Type 0 where
  pub handlers : List (Text × JobHandler R P)
  pub running : Bool
  -- whether stopChan is closed
  pub closed : Bool

-- NewWorker; the pool size is how many copies of `worker` Start starts.
abbrev pub new_worker : {R : Redis} {P : Type 0} → Worker R P
new_worker = record { handlers = []; running = false; closed = false }

-- Register.
unfoldable pub register : {R : Redis} {P : Type 0} → Worker R P → Text → JobHandler R P → Worker R P
register w kind handler = record w { handlers = insert kind handler w.handlers }

-- What one turn of the loop of `worker` does: no job, Fail without or after the handler, Complete.
pub data Turn : Type 0 where
  no_job : Error → Turn
  unhandled : Ended → Turn
  job_failed : Ended → Turn
  job_completed : Option Error → Turn

-- Two readings of the clock in a turn: that of Start, and that of the handler.
pub record Times : Type 0 where
  pub running : Bool
  pub at_start : Moment
  pub in_handler : Moment

module _ (R : Redis) {P : Type 0} (C : Codec P) (q : QueueConfig) where
  abbrev after_handler : Job P → R.State × Option Error → R.State × Turn
  after_handler job (s, some e) =
      let (after, ended) = fail R C q job.id job.queue (some e) s in (after, job_failed ended)
  after_handler job (s, none) =
      let (after, e) = complete R C q job.id job.queue s in (after, job_completed e)

  -- From the look-up of the handler on.
  abbrev handle_job : Worker R P → Times → Job P → R.State → R.State × Turn
  handle_job w t job s = elim (lookup job.kind w.handlers) [
    | none ↦
        let cause = message (codes "no handler for job type: " ++ job.kind) in
        let (after, ended) = fail R C q job.id job.queue (some cause) s in (after, unhandled ended)
    | some handler ↦
        after_handler job (handler t.in_handler job (start R C q t.at_start job.id job.queue s).0)
  ]

  abbrev dispatched : Worker R P → Times → R.State × Result (Job P) → R.State × Turn
  dispatched w t (s, err e) = (s, no_job e)
  dispatched w t (s, ok job) = handle_job w t job s

  -- One turn of the loop.
  unfoldable pub turn : Worker R P → Times → R.State → R.State × Turn
  unfolding dequeue
  turn w t s = dispatched w t (dequeue R C q [] s)

  abbrev panics : Turn → Bool
  panics (unhandled panicked) = true
  panics (job_failed panicked) = true
  panics _ = false

  -- The loop of `worker` over what it reads of `running` and the clock: it ends where it reads that
  -- the worker is stopped, and a panic ends it too.
  unfoldable pub worker : Worker R P → List Times → R.State → R.State × List Turn
  unfolding turn
  worker w [] s = (s, [])
  worker w (t ∷ times) s =
      let (after, did) = turn w t s in
      let (end, turns) = worker w times after in
      if not t.running
      then (s, [])
      else if panics did
      then (after, did ∷ [])
      else (end, did ∷ turns)
