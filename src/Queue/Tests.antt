-- ===== src/Queue/Tests.antt =====
-- The theorems on the queue at concrete jobs.
use gateway_a.Prelude.{
  pos, Text, text_eq, codes, true, false, Option, none, some, List, [], ◌∷◌, Error, Result, All,
  has_prefix, ◌≡◌, refl,
}
use gateway_a.Queue.{
  Job, QueueConfig, Moment, returned, enqueue, dequeue, stamped, queue_key, fail, start,
}
use gateway_a.Queue.Worker.{Times, new_worker, worker}
use gateway_a.Queue.Api.{error_json, get_job_status, jobs_route}
use gateway_a.Queue.Memory.{Held, memory, empty, memory-IsLawful, memory-IsReachable, empty-Clean}
use gateway_a.Queue.Written.{sample_codec, bytes_of, sample_codec-bytes_of}
use gateway_a.Queue.Runs.{
  Operation, enqueues, starts, works, run, IsNoJob, run-finds_no_job, run-IsNoJob,
}
use gateway_a.Queue.Roundtrip.{read_from, enqueue-dequeue, enqueue-dequeue_newest}

abbrev settings : QueueConfig
settings = record {
  default_queue = codes "default";
  default_retries = pos 3;
  default_timeout = pos 300000000000;
}

abbrev job : Text → Job Text
job payload = record {
  id = [];
  kind = codes "llm_caching";
  payload = payload;
  status = [];
  retries = pos 0;
  max_retries = pos 0;
  timeout = pos 0;
  expires_at = none;
  queue = [];
  created_at = pos 0;
  started_at = none;
  finished_at = none;
  error = [];
  metadata = [];
}

abbrev moment : Moment
moment = record { nanos = pos 1700000000; created = pos 1700000500; random = 1 ∷ 2 ∷ 3 ∷ 255 ∷ [] }

abbrev times : List Times
times = record { running = true; at_start = moment; in_handler = moment } ∷ []

abbrev events : List (Operation memory Text)
events =
    enqueues moment (job (codes "first"))
    ∷ starts moment (codes "job_1") []
    ∷ works new_worker times
    ∷ []

other : has_prefix (codes "default") (codes "queue:") ≡ false
unfolding has_prefix
other = refl

abbrev left : Held
left = run memory sample_codec settings events empty

run-finds_no_job_example :
    (get_job_status memory sample_codec settings (λ t. []) (jobs_route (codes "job_1")) left
      ≡ error_json 404 (codes "Job not found"))
    × ((e : Error) × (start memory sample_codec settings moment (codes "job_1") [] left
          ≡ (left, some e)))
    × ((e : Error) × (fail memory sample_codec settings (codes "job_1") [] none left
          ≡ (left, returned (some e))))
run-finds_no_job_example =
    run-finds_no_job memory memory-IsLawful sample_codec settings other events empty (λ t. [])
      (jobs_route (codes "job_1")) moment (codes "job_1") [] none empty-Clean

run-IsNoJob_example : All IsNoJob (worker memory sample_codec settings new_worker times left).1
run-IsNoJob_example =
    run-IsNoJob memory memory-IsLawful sample_codec settings other events empty new_worker times
      empty-Clean

abbrev first : Job Text
first = job (codes "first")

abbrev second : Job Text
second = job (codes "second")

abbrev pushed : Held × Option Error
pushed = (enqueue memory sample_codec settings moment first empty).1

abbrev popped : Held × Result (Job Text)
popped = dequeue memory sample_codec settings (codes "queue:default") pushed.0

enqueue-dequeue_example :
    (pushed.1 ≡ none)
    × (popped.1 ≡ read_from sample_codec (bytes_of (stamped settings moment first)))
    × (memory-IsLawful.list_of popped.0 (codes "queue:default")
        ≡ memory-IsLawful.list_of empty (codes "queue:default"))
unfolding queue_key
enqueue-dequeue_example =
    enqueue-dequeue memory memory-IsLawful memory-IsReachable sample_codec settings moment first
      empty (bytes_of (stamped settings moment first)) (sample_codec-bytes_of _)

abbrev both : Held
both = (enqueue memory sample_codec settings moment second pushed.0).1.0

abbrev newest : Held × Result (Job Text)
newest = dequeue memory sample_codec settings (codes "queue:default") both

abbrev oldest : Held × Result (Job Text)
oldest = dequeue memory sample_codec settings (codes "queue:default") newest.0

enqueue-dequeue_newest_example :
    (newest.1 ≡ read_from sample_codec (bytes_of (stamped settings moment second)))
    × (oldest.1 ≡ read_from sample_codec (bytes_of (stamped settings moment first)))
    × (memory-IsLawful.list_of oldest.0 (codes "queue:default")
        ≡ memory-IsLawful.list_of empty (codes "queue:default"))
unfolding queue_key
enqueue-dequeue_newest_example =
    enqueue-dequeue_newest memory memory-IsLawful memory-IsReachable sample_codec settings moment
      moment first second empty (bytes_of (stamped settings moment first))
      (bytes_of (stamped settings moment second)) (sample_codec-bytes_of _)
      (sample_codec-bytes_of _) refl
