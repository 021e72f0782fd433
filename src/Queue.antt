-- ===== src/Queue.antt =====
-- pkg/queue/queue.go: the queue of jobs in Redis. The calls of the Redis client and of the JSON
-- package (github.com/bytedance/sonic) are parameters.
pub mod Client
pub mod Worker
pub mod Handlers
pub mod Channels
pub mod Api
pub mod Reachable
pub mod Runs
pub mod Roundtrip
pub mod Memory
pub mod Written
mod Tests
use gateway_a.Prelude.{
  ℕ, ◌/◌, ◌%◌, ◌+◌, hex_digit, ℤ, pos, ◌+ℤ◌, leb_ℤ, to_int64, itoa, Text, codes, Bool, true, false,
  ◌&&◌, Option, none, some, List, [], ◌≡◌, ◌∷◌, ◌++◌, if◌then◌else◌, Error, wrapped, Result, ok,
  err, error_text,
}
use gateway_a.Queue.Client.{Redis}

-- Times are nanoseconds of the Unix clock; P stands for map[string]interface{}.
pub record Job (P : Type 0) : Type 0 where
  pub id : Text
  pub kind : Text
  pub payload : P
  pub status : Text
  pub retries : ℤ
  pub max_retries : ℤ
  pub timeout : ℤ
  pub expires_at : Option ℤ
  pub queue : Text
  pub created_at : ℤ
  pub started_at : Option ℤ
  pub finished_at : Option ℤ
  pub error : Text
  pub metadata : P

-- sonic.Marshal of a job, and sonic.Unmarshal into one.
pub record Codec (P : Type 0) : Type 0 where
  pub marshal : Job P → Result Text
  pub unmarshal : Text → Result (Job P)

abbrev pub status_pending : Text
status_pending = codes "pending"

abbrev pub status_running : Text
status_running = codes "running"

-- The part of QueueConfig that the operations read.
pub record QueueConfig : Type 0 where
  pub default_queue : Text
  pub default_retries : ℤ
  pub default_timeout : ℤ

abbrev pub normalize_queue : QueueConfig → Text → Text
normalize_queue q [] = q.default_queue
normalize_queue q (c ∷ name) = c ∷ name

unfoldable pub queue_key : Text → Text
queue_key name = codes "queue:" ++ name

unfoldable pub job_key : QueueConfig → Text → Text → Text
job_key q job_id name = codes "job:" ++ (job_id ++ (codes ":" ++ normalize_queue q name))

-- `%x` of a byte slice.
unfoldable hex_bytes : List ℕ → Text
hex_bytes [] = []
hex_bytes (b ∷ bytes) = hex_digit (b / 16) ∷ hex_digit (b % 16) ∷ hex_bytes bytes

-- The readings of the clock and of the random source in one call. Enqueue reads the clock twice: for the
-- identifier, and then for the time of creation.
pub record Moment : Type 0 where
  pub nanos : ℤ
  pub created : ℤ
  pub random : List ℕ

unfoldable pub generate_job_id : Moment → Text
unfolding hex_bytes
generate_job_id m = codes "job_" ++ (itoa m.nanos ++ (codes "_" ++ hex_bytes m.random))

abbrev is_zero : ℤ → Bool
is_zero z = leb_ℤ z (pos 0) && leb_ℤ (pos 0) z

abbrev default_if_zero : ℤ → ℤ → ℤ
default_if_zero default z = if is_zero z then default else z

-- The fields that Enqueue sets.
abbrev pub stamped : {P : Type 0} → QueueConfig → Moment → Job P → Job P
stamped q m job = record job {
  id = generate_job_id m;
  status = status_pending;
  created_at = m.created;
  queue = normalize_queue q job.queue;
  max_retries = default_if_zero q.default_retries job.max_retries;
  timeout = default_if_zero q.default_timeout job.timeout;
}

unfoldable pub pub_sub_channel : Text → Text
pub_sub_channel channel = codes "pubsub:jobs:" ++ channel

-- What a method with an `error` result does; it may panic.
pub data Ended : Type 0 where
  returned : Option Error → Ended
  panicked : Ended

module _ (R : Redis) {P : Type 0} (C : Codec P) (q : QueueConfig) where
  abbrev push_marshalled : Text → Result Text → R.State → R.State × Option Error
  push_marshalled prefix (ok bytes) s = R.rpush s prefix bytes
  push_marshalled prefix (err e) s = (s, some (wrapped (codes "failed to marshal job: ") e))

  -- Enqueue; the caller's job is changed whatever happens.
  unfoldable pub enqueue : Moment → Job P → R.State → Job P × (R.State × Option Error)
  unfolding queue_key
  enqueue m job s =
      let j = stamped q m job in (j, push_marshalled (queue_key j.queue) (C.marshal j) s)

  abbrev pub unmarshalled : Result Text → Result (Job P)
  unmarshalled (err e) = err e
  unmarshalled (ok bytes) = elim (C.unmarshal bytes) [
    | ok job ↦ ok job
    | err e ↦ err (wrapped (codes "failed to unmarshal job: ") e)
  ]

  -- Dequeue.
  unfoldable pub dequeue : Text → R.State → R.State × Result (Job P)
  dequeue name s =
      let (after, popped) = R.brpop s (normalize_queue q name) in (after, unmarshalled popped)

  -- Complete.
  unfoldable pub complete : Text → Text → R.State → R.State × Option Error
  complete job_id name s = R.del s (job_key q job_id name)

  -- Publish.
  unfoldable pub publish : Text → Text → R.State → R.State × Option Error
  unfolding pub_sub_channel
  publish channel message s = R.publish s (pub_sub_channel channel) message

  -- Get.
  unfoldable pub get : Text → Text → R.State → Result (Job P)
  get job_id name s = unmarshalled (R.get s (job_key q job_id name))

  -- Fail: the error that the caller passes is overwritten by that of Get, which is nil where the job
  -- is found, and `err.Error()` panics on it. What follows that line is not reached.
  unfoldable pub fail : Text → Text → Option Error → R.State → R.State × Ended
  unfolding get
  fail job_id name cause s = elim (get job_id name s) [
    | err e ↦ (s, returned (some e))
    | ok job ↦ (s, panicked)
  ]

  abbrev started : Moment → Job P → Job P
  started m job = record job { status = status_running; started_at = some m.nanos }

  abbrev set_marshalled : Text → ℤ → Result Text → R.State → R.State × Option Error
  set_marshalled key ttl (ok bytes) s = R.set s key bytes ttl
  set_marshalled key ttl (err e) s = (s, some (wrapped (codes "failed to marshal job: ") e))

  -- Start.
  unfoldable pub start : Moment → Text → Text → R.State → R.State × Option Error
  unfolding get
  start m job_id name s = elim (get job_id name s) [
    | err e ↦ (s, some e)
    | ok job ↦ set_marshalled (job_key q job_id name) job.timeout (C.marshal (started m job)) s
  ]
