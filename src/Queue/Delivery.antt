-- ===== src/Queue/Delivery.antt =====
-- internal/queue: what `MemoryQueue` and `SortedQueue` do alike with the storage and a queue held
-- in memory. The two types differ in `Enqueue` and, in `Recover` and `sweep`, in the jobs that they
-- skip and in the counter, which are arguments here.
pub mod Safe
pub mod Calls
pub mod Keeps
pub mod Steps
pub mod Attempts
pub mod Retries
pub mod Reads
pub mod Recovery
pub mod Restart
pub mod Repeats
use rjq.Common.{
  ℕ, suc, ◌-◌, String, Bool, Option, none, some, List, [], ◌∷◌, if◌then◌else◌, leb, ltb,
}
use rjq.Common.Monad.{◌>>=◌, Result, ok, err, Method, ◌>>◌, return, need}
use rjq.Models.{
  Job, Status, pending, processing, completed, failed, is_processing, empty, exhausted,
}
use rjq.Errors.{Error, about, wrapping}
use rjq.Storage.Database.{Database}
use rjq.Storage.Interface.{Storage}

-- A queue and the storage that its `store` field points to.
pub record Backed (Q : Type 0) : Type 0 where
  pub db : Database
  pub queue : Q

abbrev pub set_db : {Q A : Type 0} → Q → Result Error A × Database → Result Error A × Backed Q
set_db q (r, db) = (r, record { db = db; queue = q })

abbrev pub set_queue : {Q A : Type 0} → Database → Result Error A × Q → Result Error A × Backed Q
set_queue db (r, q) = (r, record { db = db; queue = q })

-- A call of the storage, and a call of the queue in memory.
abbrev pub on_db : {Q A : Type 0} → Method Database Error A → Method (Backed Q) Error A
on_db m s = set_db s.queue (m s.db)

abbrev pub on_queue : {Q A : Type 0} → Method Q Error A → Method (Backed Q) Error A
on_queue m s = set_queue s.db (m s.queue)

-- `if err != nil || job == nil { return fmt.Errorf("…: job %s not found", id) }`
abbrev pub or_missing : {S A : Type 0} → Error → Result Error (Option A) × S → Result Error A × S
or_missing e (ok (some a), s) = (ok a, s)
or_missing e (ok none, s) = (err e, s)
or_missing e (err _, s) = (err e, s)

-- 10*time.Minute, in nanoseconds.
abbrev pub stuck_after : ℕ
stuck_after = 600_000_000_000

module _ {Q : Type 0} (store : Storage) (enqueue : Job → Method Q Error (Unit {0})) where
  abbrev pub fetch : String → String → Method (Backed Q) Error Job
  fetch what id s = or_missing (about what id) (on_db (store.get_job id) s)

  abbrev pub enqueue_pending : Job → Method (Backed Q) Error (Unit {0})
  enqueue_pending job = on_queue (enqueue (record job { status = pending }))

  unfoldable pub ack : String → ℕ → Method (Backed Q) Error (Unit {0})
  ack id now = on_db (store.update_job_status id completed empty now)

  unfoldable pub set_processing : String → ℕ → Method (Backed Q) Error (Unit {0})
  set_processing id now = on_db (store.update_job_status id processing empty now)

  -- `job.RetryCount++` and what follows it; `n` is the new count.
  unfoldable pub nack_job : String → Job → ℕ → ℕ → Method (Backed Q) Error (Unit {0})
  nack_job id job n now =
      if leb job.max_retries n
      then on_db (store.update_job_retry id failed n (exhausted n) now)
      else (do
        on_db (store.update_job_retry id pending n empty now)
        enqueue_pending (record job { retry_count = n }))

  unfoldable pub nack : String → ℕ → Method (Backed Q) Error (Unit {0})
  unfolding nack_job
  nack id now = do
    found ← wrapping "nack: failed to get job" (on_db (store.get_job id))
    job ← need (about "nack: job not found" id) found
    nack_job id job (suc job.retry_count) now

  unfoldable pub requeue : String → ℕ → Method (Backed Q) Error (Unit {0})
  requeue id now = do
    on_db (store.requeue id now)
    job ← fetch "requeue: job not found" id
    enqueue_pending job

  unfoldable pub retry : String → ℕ → ℕ → Method (Backed Q) Error (Unit {0})
  retry id extra_retries now = do
    on_db (store.reset_for_retry id extra_retries now)
    job ← fetch "retry: job not found" id
    enqueue_pending job

  module _ (skip : Job → Bool) (recovered : Method Database Error (Unit {0})) (now : ℕ) where
    -- The reset of a job that a crash left in processing; any other is enqueued as it is.
    unfoldable pub reset_processing : Job → Method (Backed Q) Error Job
    reset_processing job =
        if is_processing job.status
        then (do
          wrapping "recover: failed to reset job"
              (on_db (store.update_job_status job.id pending empty now))
          return (record job { status = pending }))
        else return job

    -- The body of the loop of `Recover`.
    unfoldable pub recover_job : Job → Method (Backed Q) Error (Unit {0})
    unfolding reset_processing
    recover_job job = if skip job then return tt else (do
      job' ← reset_processing job
      wrapping "recover: failed to enqueue job" (on_queue (enqueue job'))
      on_db recovered)

    unfoldable pub recover_jobs : List Job → Method (Backed Q) Error (Unit {0})
    unfolding recover_job
    recover_jobs [] = return tt
    recover_jobs (job ∷ jobs) = recover_job job >> recover_jobs jobs

    unfoldable pub recover : Method (Backed Q) Error (Unit {0})
    unfolding recover_jobs
    recover = do
      jobs ← wrapping "recover: failed to list pending jobs" (on_db store.list_pending_jobs)
      recover_jobs jobs

  -- An error that is logged and dropped.
  abbrev pub ignoring : {A : Type 0} → Method (Backed Q) Error A → Backed Q → Backed Q
  ignoring m s = (m s).1

  module _ (skip : Job → Bool) (now : ℕ) where
    -- The `switch job.Status` in the loop of `sweep`.
    abbrev pub sweep_case : Status → Job → Method (Backed Q) Error (Unit {0})
    sweep_case pending job = on_queue (enqueue job)
    sweep_case processing job =
        if ltb stuck_after (now - job.updated_at)
        then on_db (store.update_job_status job.id pending empty now) >> enqueue_pending job
        else return tt
    sweep_case completed job = return tt
    sweep_case failed job = return tt

    unfoldable pub sweep_job : Job → Backed Q → Backed Q
    sweep_job job s = if skip job then s else ignoring (sweep_case job.status job) s

    unfoldable pub sweep_jobs : List Job → Backed Q → Backed Q
    unfolding sweep_job
    sweep_jobs [] s = s
    sweep_jobs (job ∷ jobs) s = sweep_jobs jobs (sweep_job job s)

    abbrev pub sweep_listed : Result Error (List Job) × Backed Q → Backed Q
    sweep_listed (ok jobs, s) = sweep_jobs jobs s
    sweep_listed (err e, s) = s

    unfoldable pub sweep : Backed Q → Backed Q
    unfolding sweep_jobs
    sweep s = sweep_listed (on_db store.list_pending_jobs s)
