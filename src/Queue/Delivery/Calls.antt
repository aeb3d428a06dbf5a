-- ===== src/Queue/Delivery/Calls.antt =====
-- What the methods of a queue that settle one job leave alone.
use rjq.Common.{ℕ, suc, String, Option, none, some, refl, leb}
use rjq.Common.Monad.{Result, ok, err, Method, ◌>>=◌, need}
use rjq.Models.{Job, Status, pending, processing, completed, failed, Message, empty, exhausted}
use rjq.Errors.{Error, about, wrapping}
use rjq.Storage.Interface.{Storage}
use rjq.Storage.Contract.{Contract}
use rjq.Queue.Delivery.{
  Backed, on_db, on_queue, or_missing, fetch, enqueue_pending, ack, set_processing, nack_job, nack,
  requeue, retry,
}
use rjq.Queue.Delivery.Safe.{
  Safe, IsSafe, bind-IsSafe, need-IsSafe, wrapping-IsSafe, on_db-IsSafe, if-IsSafe,
}

module _ {Q : Type 0} (P : Q → Type 0) (store : Storage) (c : Contract store)
    (enqueue : Job → Method Q Error (Unit {0}))
    (keep : (job : Job) (q : Q) → P q → P (enqueue job q).1) where
  fetch-IsSafe : (what id : String) → IsSafe P (fetch store enqueue what id)
  fetch-IsSafe what id s =
      go (on_db (store.get_job id) s) (on_db-IsSafe P (store.get_job id) (c.get_keeps id) s)
    where
      go :
          (x : Result Error (Option Job) × Backed Q)
          → Safe P s x.1
          → Safe P s (or_missing (about what id) x).1
      go (ok (some job), u) p = p
      go (ok none, u) p = p
      go (err e, u) p = p

  pub enqueue-IsSafe : (job : Job) → IsSafe P (on_queue (enqueue job))
  enqueue-IsSafe job s = record { rows = refl; queue = keep job s.queue }

  pub pending-IsSafe : (job : Job) → IsSafe P (enqueue_pending store enqueue job)
  pending-IsSafe job = enqueue-IsSafe (record job { status = pending })

  pub status-IsSafe :
      (id : String) (st : Status) (now : ℕ)
      → IsSafe P (on_db (store.update_job_status id st empty now))
  status-IsSafe id st now =
      on_db-IsSafe P (store.update_job_status id st empty now) (c.status_keeps id st empty now)

  pub ack-IsSafe : (id : String) (now : ℕ) → IsSafe P (ack store enqueue id now)
  unfolding ack
  ack-IsSafe id now = status-IsSafe id completed now

  pub set_processing-IsSafe :
      (id : String) (now : ℕ) → IsSafe P (set_processing store enqueue id now)
  unfolding set_processing
  set_processing-IsSafe id now = status-IsSafe id processing now

  nack_job-IsSafe :
      (id : String) (job : Job) (n now : ℕ) → IsSafe P (nack_job store enqueue id job n now)
  unfolding nack_job
  nack_job-IsSafe id job n now =
      if-IsSafe P (leb job.max_retries n) _ _ (retried failed (exhausted n)) (
        bind-IsSafe P (on_db (store.update_job_retry id pending n empty now)) _
          (retried pending empty) λ _. pending-IsSafe (record job { retry_count = n }))
    where
      retried :
          (st : Status) (m : Message) → IsSafe P (on_db (store.update_job_retry id st n m now))
      retried st m =
          on_db-IsSafe P (store.update_job_retry id st n m now) (c.retry_keeps id st n m now)

  pub nack-IsSafe : (id : String) (now : ℕ) → IsSafe P (nack store enqueue id now)
  unfolding nack
  nack-IsSafe id now =
      bind-IsSafe P (wrapping "nack: failed to get job" (on_db (store.get_job id)))
        (λ found. need (about "nack: job not found" id) found >>= nacked)
        (wrapping-IsSafe P "nack: failed to get job" (on_db (store.get_job id))
          (on_db-IsSafe P (store.get_job id) (c.get_keeps id)))
        λ found.
          bind-IsSafe P (need (about "nack: job not found" id) found) nacked
            (need-IsSafe P (about "nack: job not found" id) found)
            λ job. nack_job-IsSafe id job (suc job.retry_count) now
    where
      nacked : Job → Method (Backed Q) Error (Unit {0})
      nacked job = nack_job store enqueue id job (suc job.retry_count) now

  -- `Requeue` and `Retry` go on alike after their UPDATE.
  refetch-IsSafe :
      (what id : String) (m : Method (Backed Q) Error (Unit {0}))
      → IsSafe P m
      → IsSafe P (m >>= λ _. fetch store enqueue what id >>= enqueue_pending store enqueue)
  refetch-IsSafe what id m h =
      bind-IsSafe P m (λ _. fetch store enqueue what id >>= enqueue_pending store enqueue) h
        λ _.
          bind-IsSafe P (fetch store enqueue what id) (enqueue_pending store enqueue)
            (fetch-IsSafe what id) pending-IsSafe

  pub requeue-IsSafe : (id : String) (now : ℕ) → IsSafe P (requeue store enqueue id now)
  unfolding requeue
  requeue-IsSafe id now =
      refetch-IsSafe "requeue: job not found" id (on_db (store.requeue id now))
        (on_db-IsSafe P (store.requeue id now) (c.requeue_keeps id now))

  pub retry-IsSafe : (id : String) (extra now : ℕ) → IsSafe P (retry store enqueue id extra now)
  unfolding retry
  retry-IsSafe id extra now =
      refetch-IsSafe "retry: job not found" id (on_db (store.reset_for_retry id extra now))
        (on_db-IsSafe P (store.reset_for_retry id extra now) (c.reset_keeps id extra now))
