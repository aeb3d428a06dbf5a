-- ===== src/Api.antt =====
-- internal/api/handlers.go: the handlers that read and change the system. A handler takes the
-- decoded request and returns the status code with the body; headers and logging are left out.
pub mod Create
pub mod Retry
pub mod Stats
pub mod Routes
use rjq.Common.{
  ℤ, pos, negsuc, ℕ, String, Bool, true, false, ◌||◌, Option, none, some, List, [], ◌∷◌,
  if◌then◌else◌, ltb, ◌==◌, length, keep, str_eq,
}
use rjq.Common.Monad.{Result, ok, err, Method}
use rjq.Models.{
  Payload, Job, Status, pending, failed, empty, is_pending, is_failed, priority_normal,
  priority_super_urgent, queue_type_fifo, queue_type_priority, queue_type_rate_limited,
}
use rjq.Errors.{Error, jobs_submitted}
use rjq.Storage.Database.{Database}
use rjq.Storage.Interface.{Storage}
use rjq.Queue.Router.{Router}
use rjq.Queue.Router
use rjq.Worker.{System}
use rjq.Worker

pub record Request : Type 0 where
  pub job_type : String
  pub payload : Payload
  pub queue : String
  pub priority : ℤ

pub data Body : Type 0 where
  error : String → Body
  job_status : (id : String) → Status → Body
  one : Job → Body
  many : List Job → Body
  stats : (pending processing queued : ℕ) → Body
  health : (ok : Bool) (alive expected : ℕ) → Body
  counts : (String → Status → Option ℕ) → Body

pub record Response : Type 0 where
  pub code : ℕ
  pub body : Body

abbrev pub respond : ℕ → Body → Response
respond code body = record { code = code; body = body }

-- `writeError`
abbrev pub write_error : ℕ → String → Response
write_error code msg = respond code (error msg)

-- `req.Priority < 1 || req.Priority > 3`
abbrev pub valid_priority : ℤ → ℕ
valid_priority (pos n) = if ltb n 1 || ltb 3 n then priority_normal else n
valid_priority (negsuc n) = priority_normal

abbrev pub payload_or_empty : Payload → Payload
payload_or_empty none = some []
payload_or_empty (some m) = some m

abbrev pub queue_or_fifo : String → String
queue_or_fifo q = if str_eq q "" then queue_type_fifo else q

abbrev pub new_job : Request → String → ℕ → Job
new_job req id now = record {
  id = id;
  job_type = req.job_type;
  payload = payload_or_empty req.payload;
  queue_type = queue_or_fifo req.queue;
  priority = valid_priority req.priority;
  status = pending;
  retry_count = 0;
  max_retries = 3;
  created_at = now;
  updated_at = now;
  processed_at = none;
  error_message = empty;
}

-- A call of the storage, with the database of the router.
abbrev pub on_store : {A : Type 0} → Method Database Error A → Method System Error A
on_store m s =
    let (x, db) = m s.router.db in (x, record s { router = record (s.router) { db = db } })

abbrev pub on_queue : {A : Type 0} → Method Router Error A → Method System Error A
on_queue m s = let (x, r) = m s.router in (x, record s { router = r })

abbrev pub count_submitted : String → System → System
count_submitted q s = record s {
  router = record (s.router) {
    db = record (s.router.db) { metrics = jobs_submitted q ∷ s.router.db.metrics };
  };
}

abbrev pub enqueued : Job → Result Error (Unit {0}) × System → Response × System
enqueued job (ok _, s) = (respond 201 (job_status job.id job.status), s)
enqueued job (err _, s) = (write_error 500 "failed to enqueue job", s)

-- A failed preemption is no failure: the job is queued normally.
abbrev pub preempted : Job → Result Error String × System → Response × System
preempted job (ok _, s) = (respond 201 (job_status job.id job.status), s)
preempted job (err _, s) = enqueued job (on_queue (Router.enqueue job) s)

-- From the saved job on.
abbrev pub deliver : Job → System → Response × System
deliver job s =
    if job.priority == priority_super_urgent
    then preempted job (Worker.preempt job s)
    else enqueued job (on_queue (Router.enqueue job) s)

abbrev pub saved : Job → Result Error (Unit {0}) × System → Response × System
saved job (ok _, s) = deliver job (count_submitted job.queue_type s)
saved job (err _, s) = (write_error 500 "failed to create job", s)

abbrev pub answer : {A : Type 0} → String → (A → Body) → Result Error A × System → Response × System
answer msg f (ok a, s) = (respond 200 (f a), s)
answer msg f (err _, s) = (write_error 500 msg, s)

-- The handlers of the lists by queue drop an error and answer with no jobs.
abbrev pub or_empty : Result Error (List Job) × System → Response × System
or_empty (ok js, s) = (respond 200 (many js), s)
or_empty (err _, s) = (respond 200 (many []), s)

module _ (store : Storage) where
  -- `none` is a body that is no JSON of the request's form. The id is the one that the uuid
  -- library returns.
  unfoldable pub create_job : Option Request → String → ℕ → System → Response × System
  unfolding Router.enqueue Worker.preempt
  create_job none id now s = (write_error 400 "invalid JSON body", s)
  create_job (some req) id now s =
      if str_eq req.job_type ""
      then (write_error 400 "job_type is required", s)
      else saved (new_job req id now) (on_store (store.save_job (new_job req id now)) s)

  abbrev pub got : Result Error (Option Job) × System → Response × System
  got (ok (some job), s) = (respond 200 (one job), s)
  got (ok none, s) = (write_error 404 "job not found", s)
  got (err _, s) = (write_error 500 "failed to retrieve job", s)

  unfoldable pub get_job : String → System → Response × System
  get_job id s = got (on_store (store.get_job id) s)

  abbrev pub retried : String → Result Error (Unit {0}) × System → Response × System
  retried id (ok _, s) = (respond 200 (job_status id pending), s)
  retried id (err _, s) = (write_error 500 "failed to retry job", s)

  abbrev pub retry_found : String → ℕ → Result Error (Option Job) × System → Response × System
  retry_found id now (ok (some job), s) =
      if is_failed job.status
      then retried id (on_queue (Router.retry store id 3 now) s)
      else (write_error 400 "only failed jobs can be retried", s)
  retry_found id now (ok none, s) = (write_error 404 "job not found", s)
  retry_found id now (err _, s) = (write_error 500 "failed to get job", s)

  unfoldable pub retry_job : String → ℕ → System → Response × System
  unfolding Router.retry
  retry_job id now s = retry_found id now (on_store (store.get_job id) s)

  abbrev pub stats_of : List Job → Result Error (List Job) × System → Response × System
  stats_of js (ok processing, s) = (
    respond 200 (
        stats (length (keep (λ j. is_pending j.status) js)) (length processing)
          (Router.pending_count s.router)),
    s,
  )
  stats_of js (err _, s) = (write_error 500 "failed to get stats", s)

  abbrev pub stats_found : Result Error (List Job) × System → Response × System
  stats_found (ok js, s) = stats_of js (on_store store.get_processing_jobs s)
  stats_found (err _, s) = (write_error 500 "failed to get stats", s)

  unfoldable pub get_stats : System → Response × System
  unfolding Router.pending_count
  get_stats s = stats_found (on_store store.list_pending_jobs s)

  unfoldable pub list_jobs : System → Response × System
  list_jobs s = answer "failed to list jobs" many (on_store (store.list_recent_jobs 20) s)

  unfoldable pub get_processing : System → Response × System
  get_processing s =
      answer "failed to get processing jobs" many (on_store store.get_processing_jobs s)

  unfoldable pub get_pending : System → Response × System
  get_pending s = answer "failed to get pending jobs" many (on_store store.list_all_pending_jobs s)

  unfoldable pub get_pending_fifo : System → Response × System
  get_pending_fifo s = or_empty (on_store (store.list_pending_by_queue queue_type_fifo) s)

  unfoldable pub get_pending_priority : System → Response × System
  get_pending_priority s = or_empty (on_store (store.list_pending_by_queue queue_type_priority) s)

  unfoldable pub get_pending_rate_limited : System → Response × System
  get_pending_rate_limited s =
      or_empty (on_store (store.list_pending_by_queue queue_type_rate_limited) s)

  unfoldable pub get_counts : System → Response × System
  get_counts s = answer "failed to count jobs" counts (on_store store.count_by_queue_and_status s)

  unfoldable pub get_health : System → Response × System
  get_health s =
      let alive = s.pool.alive in
      let expected = s.pool.count in
      (
        if ltb alive expected
            then respond 503 (health false alive expected)
            else respond 200 (health true alive expected),
        s,
      )
