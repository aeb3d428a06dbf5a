-- ===== src/Queue/Delivery/Keeps.antt =====
-- What every method of a queue leaves alone, whatever the driver answers and whatever state the
-- queue in memory is in.
use rjq.Common.{ℕ, String, Bool, List, [], ◌∷◌, inl, inr, ltb, ◌-◌, Bool-cases}
use rjq.Common.Monad.{Result, ok, err, Method, ◌>>◌, return}
use rjq.Models.{Job, Status, pending, processing, completed, failed, is_processing, empty}
use rjq.Errors.{Error, wrapping}
use rjq.Storage.Database.{Database}
use rjq.Storage.Interface.{Storage}
use rjq.Storage.Contract.{Contract, Keeps}
use rjq.Queue.Delivery.{
  Backed, on_db, on_queue, enqueue_pending, ack, set_processing, nack, requeue, retry,
  reset_processing, recover_job, recover_jobs, recover, sweep_case, sweep_job, sweep_jobs,
  sweep_listed, sweep, stuck_after,
}
use rjq.Queue.Delivery.Safe.{
  Safe, IsSafe, Safe-refl, Safe-trans, bind-IsSafe, return-IsSafe, wrapping-IsSafe, on_db-IsSafe,
  if-IsSafe,
}
use rjq.Queue.Delivery.Calls.{
  enqueue-IsSafe, pending-IsSafe, status-IsSafe, ack-IsSafe, nack-IsSafe, set_processing-IsSafe,
  requeue-IsSafe, retry-IsSafe,
}

module _ {Q : Type 0} (P : Q → Type 0) (store : Storage) (c : Contract store)
    (enqueue : Job → Method Q Error (Unit {0}))
    (keep : (job : Job) (q : Q) → P q → P (enqueue job q).1) where
  module _ (skip : Job → Bool) (recovered : Method Database Error (Unit {0})) (k : Keeps recovered)
      (now : ℕ) where
    reset_processing-IsSafe :
        (job : Job) → IsSafe P (reset_processing store enqueue skip recovered now job)
    unfolding reset_processing
    reset_processing-IsSafe job =
        if-IsSafe P (is_processing job.status) _ _
          (bind-IsSafe P (wrapping "recover: failed to reset job" reset)
            (λ _. return (record job { status = pending }))
            (wrapping-IsSafe P "recover: failed to reset job" reset
              (status-IsSafe P store c enqueue keep job.id pending now))
            λ _. return-IsSafe P (record job { status = pending }))
          (return-IsSafe P job)
      where
        reset : Method (Backed Q) Error (Unit {0})
        reset = on_db (store.update_job_status job.id pending empty now)

    recover_job-IsSafe : (job : Job) → IsSafe P (recover_job store enqueue skip recovered now job)
    unfolding recover_job
    recover_job-IsSafe job = if-IsSafe P (skip job) _ _ (return-IsSafe P tt) (
        bind-IsSafe P (reset_processing store enqueue skip recovered now job) enqueued
          (reset_processing-IsSafe job)
          λ job'.
            bind-IsSafe P (wrapping "recover: failed to enqueue job" (on_queue (enqueue job')))
              (λ _. on_db recovered)
              (wrapping-IsSafe P "recover: failed to enqueue job" (on_queue (enqueue job'))
                (enqueue-IsSafe P store c enqueue keep job'))
              λ _. on_db-IsSafe P recovered k)
      where
        enqueued : Job → Method (Backed Q) Error (Unit {0})
        enqueued job' =
            wrapping "recover: failed to enqueue job" (on_queue (enqueue job')) >> on_db recovered

    recover_jobs-IsSafe :
        (jobs : List Job) → IsSafe P (recover_jobs store enqueue skip recovered now jobs)
    unfolding recover_jobs
    recover_jobs-IsSafe [] = return-IsSafe P tt
    recover_jobs-IsSafe (job ∷ jobs) =
        bind-IsSafe P (recover_job store enqueue skip recovered now job)
          (λ _. recover_jobs store enqueue skip recovered now jobs) (recover_job-IsSafe job)
          λ _. recover_jobs-IsSafe jobs

    recover-IsSafe : IsSafe P (recover store enqueue skip recovered now)
    unfolding recover
    recover-IsSafe =
        bind-IsSafe P
          (wrapping "recover: failed to list pending jobs" (on_db store.list_pending_jobs))
          (recover_jobs store enqueue skip recovered now)
          (wrapping-IsSafe P "recover: failed to list pending jobs" (on_db store.list_pending_jobs)
            (on_db-IsSafe P store.list_pending_jobs c.list_keeps))
          recover_jobs-IsSafe

  module _ (skip : Job → Bool) (now : ℕ) where
    sweep_case-IsSafe :
        (st : Status) (job : Job) → IsSafe P (sweep_case store enqueue skip now st job)
    sweep_case-IsSafe pending job = enqueue-IsSafe P store c enqueue keep job
    sweep_case-IsSafe processing job =
        if-IsSafe P (ltb stuck_after (now - job.updated_at)) _ _
          (bind-IsSafe P (on_db (store.update_job_status job.id pending empty now))
            (λ _. enqueue_pending store enqueue job)
            (status-IsSafe P store c enqueue keep job.id pending now)
            λ _. pending-IsSafe P store c enqueue keep job)
          (return-IsSafe P tt)
    sweep_case-IsSafe completed job = return-IsSafe P tt
    sweep_case-IsSafe failed job = return-IsSafe P tt

    sweep_job-Safe : (job : Job) (s : Backed Q) → Safe P s (sweep_job store enqueue skip now job s)
    unfolding sweep_job
    sweep_job-Safe job s = elim (Bool-cases (skip job)) [
      | inl e ↦ simp e (Safe-refl P s)
      | inr e ↦ simp e (sweep_case-IsSafe job.status job s)
    ]

    sweep_jobs-Safe :
        (jobs : List Job) (s : Backed Q) → Safe P s (sweep_jobs store enqueue skip now jobs s)
    unfolding sweep_jobs
    sweep_jobs-Safe [] s = Safe-refl P s
    sweep_jobs-Safe (job ∷ jobs) s =
        let t = sweep_job store enqueue skip now job s in
        Safe-trans P s t _ (sweep_job-Safe job s) (sweep_jobs-Safe jobs t)

    sweep-Safe : (s : Backed Q) → Safe P s (sweep store enqueue skip now s)
    unfolding sweep
    sweep-Safe s =
        go (on_db store.list_pending_jobs s) (on_db-IsSafe P store.list_pending_jobs c.list_keeps s)
      where
        go :
            (x : Result Error (List Job) × Backed Q)
            → Safe P s x.1
            → Safe P s (sweep_listed store enqueue skip now x)
        go (ok jobs, t) p = Safe-trans P s t _ p (sweep_jobs-Safe jobs t)
        go (err e, t) p = p

  -- The methods of a queue that touch the storage.
  pub record AllSafe : Type 0 where
    pub ack_safe : (id : String) (now : ℕ) → IsSafe P (ack store enqueue id now)
    pub nack_safe : (id : String) (now : ℕ) → IsSafe P (nack store enqueue id now)
    pub set_processing_safe :
        (id : String) (now : ℕ) → IsSafe P (set_processing store enqueue id now)
    pub requeue_safe : (id : String) (now : ℕ) → IsSafe P (requeue store enqueue id now)
    pub retry_safe : (id : String) (extra now : ℕ) → IsSafe P (retry store enqueue id extra now)
    pub lists_safe : IsSafe P (on_db store.list_pending_jobs)
    pub recover_job_safe :
        (skip : Job → Bool) (recovered : Method Database Error (Unit {0}))
        → Keeps recovered
        → (now : ℕ) (job : Job) → IsSafe P (recover_job store enqueue skip recovered now job)
    pub recover_safe :
        (skip : Job → Bool) (recovered : Method Database Error (Unit {0}))
        → Keeps recovered
        → (now : ℕ) → IsSafe P (recover store enqueue skip recovered now)
    pub sweep_job_safe :
        (skip : Job → Bool) (now : ℕ) (job : Job) (s : Backed Q)
        → Safe P s (sweep_job store enqueue skip now job s)
    pub sweep_safe :
        (skip : Job → Bool) (now : ℕ) (s : Backed Q) → Safe P s (sweep store enqueue skip now s)

  -- Whatever the driver answers, no method of a queue removes a job from the table or adds one,
  -- and each keeps every property of the queue in memory that `Enqueue` keeps.
  pub all_safe : AllSafe
  all_safe = record {
    ack_safe = ack-IsSafe P store c enqueue keep;
    nack_safe = nack-IsSafe P store c enqueue keep;
    set_processing_safe = set_processing-IsSafe P store c enqueue keep;
    requeue_safe = requeue-IsSafe P store c enqueue keep;
    retry_safe = retry-IsSafe P store c enqueue keep;
    lists_safe = on_db-IsSafe P store.list_pending_jobs c.list_keeps;
    recover_job_safe = recover_job-IsSafe;
    recover_safe = recover-IsSafe;
    sweep_job_safe = sweep_job-Safe;
    sweep_safe = sweep-Safe;
  }
