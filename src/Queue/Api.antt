-- ===== src/Queue/Api.antt =====
-- internal/handler/queue.go: the endpoints of the queue, and the route parameters that
-- internal/server/server.go gives them.
use gateway_a.Prelude.{
  ℕ, ℤ, pos, Text, text_eq, codes, Option, none, some, List, [], ◌∷◌, Error, error_text, Result, ok,
  err, lookup,
}
use gateway_a.Queue.Client.{Redis}
use gateway_a.Queue.{Job, Codec, QueueConfig, Moment, status_pending, enqueue, get}

pub record EnqueueRequest (P : Type 0) : Type 0 where
  pub job_type : Text
  pub payload : P
  pub queue : Text
  pub max_retries : ℤ
  pub timeout : Text

pub record JobStatusResponse (P : Type 0) : Type 0 where
  pub job_id : Text
  pub kind : Text
  pub payload : P
  pub status : Text
  pub retries : ℤ
  pub max_retries : ℤ
  pub error : Text
  pub created_at : Text
  pub started_at : Text
  pub finished_at : Text

-- ctx.JSON: an error, or one of the response types with status 200.
pub data Response (P : Type 0) : Type 0 where
  error_json : (status : ℕ) → Text → Response P
  enqueued : (job_id : Text) → (queue : Text) → (status : Text) → Response P
  job_status : JobStatusResponse P → Response P
  jobs : List (JobStatusResponse P) → (total : ℕ) → Response P
  stats : (queue : Text) → (active_workers : ℕ) → (pending_jobs : ℕ) → Response P

-- ctx.Param: "" where the route has no parameter of that name.
abbrev value_or_empty : Option Text → Text
value_or_empty none = []
value_or_empty (some v) = v

abbrev pub param : List (Text × Text) → Text → Text
param params name = value_or_empty (lookup name params)

-- The parameters that the route /v1/queue/jobs/:queue_id has.
abbrev pub jobs_route : Text → List (Text × Text)
jobs_route value = (codes "queue_id", value) ∷ []

abbrev pub or_default_queue : Text → Text
or_default_queue [] = codes "default"
or_default_queue (c ∷ name) = c ∷ name

-- A timeout that is given is not parsed: it counts as thirty nanoseconds.
abbrev timeout_of : Text → ℤ
timeout_of [] = pos 0
timeout_of (c ∷ text) = pos 30

-- The job that Enqueue of the handler makes; `nil` is the nil map.
abbrev pub requested : {P : Type 0} → P → EnqueueRequest P → Job P
requested nil r = record {
  id = [];
  kind = r.job_type;
  payload = r.payload;
  status = [];
  retries = pos 0;
  max_retries = r.max_retries;
  timeout = timeout_of r.timeout;
  expires_at = none;
  queue = r.queue;
  created_at = pos 0;
  started_at = none;
  finished_at = none;
  error = [];
  metadata = nil;
}

abbrev pub format_time : (ℤ → Text) → Option ℤ → Text
format_time time_string none = []
format_time time_string (some t) = time_string t

-- ListJobs
abbrev pub list_jobs : {P : Type 0} → Response P
list_jobs = jobs [] 0

-- GetWorkerStats
abbrev pub get_worker_stats : {P : Type 0} → Response P
get_worker_stats = stats (codes "default") 4 0

module _ (R : Redis) {P : Type 0} (C : Codec P) (q : QueueConfig) where
  abbrev respond_enqueued : Job P × (R.State × Option Error) → R.State × Response P
  respond_enqueued (job, (s, none)) = (s, enqueued job.id job.queue status_pending)
  respond_enqueued (job, (s, some e)) = (s, error_json 500 (error_text e))

  -- Enqueue of the handler, with what BindAndValidate makes of the request.
  unfoldable pub enqueue_handler :
      P → Result (EnqueueRequest P) → Moment → R.State → R.State × Response P
  unfolding enqueue
  enqueue_handler nil (err e) m s = (s, error_json 400 (error_text e))
  enqueue_handler nil (ok r) m s = respond_enqueued (enqueue R C q m (requested nil r) s)

  abbrev status_of : (ℤ → Text) → Job P → JobStatusResponse P
  status_of time_string job = record {
    job_id = job.id;
    kind = job.kind;
    payload = job.payload;
    status = job.status;
    retries = job.retries;
    max_retries = job.max_retries;
    error = job.error;
    created_at = time_string job.created_at;
    started_at = format_time time_string job.started_at;
    finished_at = format_time time_string job.finished_at;
  }

  -- GetJobStatus; `time_string` is the String method of time.Time.
  unfoldable pub get_job_status : (ℤ → Text) → List (Text × Text) → R.State → Response P
  unfolding get
  get_job_status time_string params s =
      let name = or_default_queue (param params (codes "queue")) in
      elim (get R C q (param params (codes "job_id")) name s) [
        | err e ↦ error_json 404 (codes "Job not found")
        | ok job ↦ job_status (status_of time_string job)
      ]
