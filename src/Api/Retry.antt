-- ===== src/Api/Retry.antt =====
-- `POST /jobs/{id}/retry`: what `RetryJob` answers, and what it leaves in the table and the queues.
use rjq.Common.{
  ℕ, ◌+◌, String, true, false, some, [], ◌∷◌, ◌++◌, ◌≡◌, refl, ap, ◌∙◌, ◌⊎◌, inl, inr, ltb, length,
  arith, Bool-cases,
}
use rjq.Common.Monad.{ok, err}
use rjq.Models.{Job, Status, pending, failed, is_failed}
use rjq.Errors.{Error}
use rjq.Storage.Rows.{Row, find, update}
use rjq.Storage.Rows.Laws.{map_row, find-update_self}
use rjq.Storage.Database.{tick}
use rjq.Storage.Interface.{Storage}
use rjq.Storage.Sqlite.Updates.{if_failed}
use rjq.Storage.Contract.{Contract, Stored}
use rjq.Queue.Delivery.{Backed}
use rjq.Queue.Delivery.Steps.{retry_found, reset-KeepsId}
use rjq.Queue.Memory.{MemoryQueue}
use rjq.Queue.Memory
use rjq.Queue.Router.{Router}
use rjq.Queue.Router
use rjq.Worker.{System}
use rjq.Api.{retry_job, retried, on_queue}

-- The FIFO queue takes a job as its last one, or refuses it and stays as it was.
enqueue-cases :
    (job : Job) (q : MemoryQueue)
    → (Memory.enqueue job q ≡ (ok tt, record q { jobs = q.jobs ++ (job ∷ []) }))
      ⊎ ((e : Error) × (Memory.enqueue job q ≡ (err e, q)))
unfolding Memory.enqueue
enqueue-cases job q = elim (Bool-cases q.closed) [
  | inl b ↦ simp b (inr (_, refl))
  | inr b ↦ elim (Bool-cases (ltb (length q.jobs) q.capacity)) [
    | inl k ↦ simp (b, k) (inl refl)
    | inr k ↦ simp (b, k) (inr (_, refl))
  ]
]

-- The row of the job is pending again, with three more retries in its limit.
abbrev pub IsReset : String → Row → System → Type 0
IsReset id r s =
    (row : Row) × (find id s.router.db.rows ≡ some row)
    × (row.status ≡ pending)
    × (row.max_retries ≡ r.max_retries + 3)

-- Nothing but the row and, where it takes the job, the FIFO queue has changed.
pub record Elsewhere (s s' : System) : Type 0 where
  pub pool : s'.pool ≡ s.pool
  pub priority : s'.router.priority ≡ s.router.priority
  pub rate_limited : s'.router.rate_limited ≡ s.router.rate_limited

pub data Retried (id : String) (r : Row) (s : System) (code : ℕ) (s' : System) : Type 0 where
  not_failed :
      is_failed r.status ≡ false
      → code ≡ 400
      → s'.router.db.rows ≡ s.router.db.rows
      → s'.router.fifo ≡ s.router.fifo
      → Elsewhere s s'
      → Retried id r s code s'
  is_queued :
      (job : Job)
      → r.status ≡ failed
      → code ≡ 200
      → IsReset id r s'
      → (job.id ≡ r.id) × (job.status ≡ pending) × (job.max_retries ≡ r.max_retries + 3)
      → s'.router.fifo.jobs ≡ s.router.fifo.jobs ++ (job ∷ [])
      → Elsewhere s s'
      → Retried id r s code s'
  is_stranded :
      r.status ≡ failed
      → code ≡ 500
      → IsReset id r s'
      → s'.router.fifo ≡ s.router.fifo
      → Elsewhere s s'
      → Retried id r s code s'

is_failed-failed : (st : Status) → is_failed st ≡ true → st ≡ failed
is_failed-failed st h = ground arith

module _ (store : Storage) (c : Contract store) where
  failed-Retried :
      (id : String) (now : ℕ) (r : Row) (j : Job) (s : System)
      → Stored c.scan id r j s.router.db
      → r.status ≡ failed
      → let (resp, s') = retried store id (
          on_queue
            (Router.retry store id 3 now)
            (record s { router = record (s.router) { db = tick s.router.db } })) in
        Retried id r s resp.code s'
  unfolding Router.retry
  failed-Retried id now r j s h failed' =
      let f = if_failed (c.reset 3 now) in
      let b : Backed MemoryQueue = record { db = tick s.router.db; queue = s.router.fifo } in
      let h' : Stored c.scan id r j b.db = record {
        healthy = h.healthy;
        found = h.found;
        scans = h.scans;
      } in
      let (resets, (i, scans, reads, e)) =
        retry_found store c Memory.enqueue id 3 now r j b h' failed' in
      let job : Job = record i { status = pending } in
      let found : find id (update id f s.router.db.rows) ≡ some (f r) =
        find-update_self id f s.router.db.rows (reset-KeepsId store c Memory.enqueue 3 now)
        ∙ ap (map_row f) h.found in
      elim (enqueue-cases job s.router.fifo) [
        | inl q ↦ rw e (
            rw q (
              is_queued job failed' refl (f r, found, resets.status, resets.max_retries)
                (reads.id ∙ resets.id, refl, reads.max_retries ∙ resets.max_retries) refl
                (record { pool = refl; priority = refl; rate_limited = refl })))
        | inr q ↦ rw e (
            rw q.1 (
              is_stranded failed' refl (f r, found, resets.status, resets.max_retries) refl
                (record { pool = refl; priority = refl; rate_limited = refl })))
      ]

  -- `POST /jobs/{id}/retry`, on a driver that answers, of a stored job. A job that has not failed is
  -- refused with a 400, and nothing changes. One that has is pending in the table, with a limit
  -- raised by three, and no worker and no other queue changes: either it stands at the end of the
  -- FIFO queue, and the answer is a 200, or that queue refused it, it is in no queue, and the answer
  -- is a 500.
  pub retry_job-Retried :
      (id : String) (now : ℕ) (r : Row) (j : Job) (s : System)
      → Stored c.scan id r j s.router.db
      → let (resp, s') = retry_job store id now s in Retried id r s resp.code s'
  unfolding retry_job
  retry_job-Retried id now r j s h =
      let reads = c.scan_reads s.router.db.driver r j h.scans in
      elim (Bool-cases (is_failed r.status)) [
        | inr b ↦
            simp (c.get_found id r j s.router.db h, reads.status, b)
              (not_failed b refl refl refl
                (record { pool = refl; priority = refl; rate_limited = refl }))
        | inl b ↦
            simp (c.get_found id r j s.router.db h, reads.status, b)
              (failed-Retried id now r j s h (is_failed-failed r.status b))
      ]
