-- ===== src/Worker/Process.antt =====
-- How `processJob` settles a job: `Ack`, `Nack` or `Requeue` by the processor's error and the
-- context.
use rjq.Common.{
  ℕ, zero, suc, String, none, some, List, [], ◌∷◌, ◌≡◌, refl, ap, ◌∙◌, if◌then◌else◌, leb,
  get_elem?, set, arith,
}
use rjq.Common.Monad.{Result}
use rjq.Errors.{Error}
use rjq.Models.{Job, pending, completed, failed, empty}
use rjq.Storage.Rows.{Row}
use rjq.Storage.Rows.Laws.{map_row, find-update_self}
use rjq.Storage.Database.{Database}
use rjq.Storage.Interface.{Storage}
use rjq.Storage.Contract.{Contract, Stored}
use rjq.Storage.Sqlite.Updates.{set_status, set_requeued}
use rjq.Queue.Delivery.{Backed}
use rjq.Queue.Delivery.Steps.{ack_found, requeue_found, restored}
use rjq.Queue.Delivery.Attempts.{nack_row, nack_one}
use rjq.Queue.Memory.{MemoryQueue}
use rjq.Queue.Memory
use rjq.Queue.Router.{Router}
use rjq.Queue.Router
use rjq.Worker.{
  Context, live, cancelled, expired, Slot, System, Outcome, succeeds, fails, context_of, settle,
  finish_job, change_slot,
}

-- What becomes of the row of a job.
abbrev pub Settles : Outcome → Context → Row → Row → Type 0
Settles succeeds x r row = (row.status ≡ completed) × (row.retry_count ≡ r.retry_count)
Settles fails cancelled r row = (row.status ≡ pending) × (row.retry_count ≡ r.retry_count)
Settles fails live r row =
    (row.status ≡ (if leb r.max_retries (suc r.retry_count) then failed else pending))
    × (row.retry_count ≡ suc r.retry_count)
Settles fails expired r row =
    (row.status ≡ (if leb r.max_retries (suc r.retry_count) then failed else pending))
    × (row.retry_count ≡ suc r.retry_count)

module _ (store : Storage) (c : Contract store) where
  abbrev Left : Outcome → Context → String → Row → Database → Type 0
  Left o x id r db = (row : Row) × (i : Job) × Stored c.scan id row i db × Settles o x r row

  abbrev backed : System → Backed MemoryQueue
  backed s = record { db = s.router.db; queue = s.router.fifo }

  nack-Left :
      (job : Job) (now : ℕ) (r : Row) (j : Job) (s : System)
      → Stored c.scan job.id r j s.router.db
      → Left fails live job.id r (settle store fails live job now s).router.db
  nack-Left job now r j s h =
      let (i, t) = nack_one store c Memory.enqueue job.id now r j (backed s) h in
      let reads = c.scan_reads s.router.db.driver r j h.scans in
      (
        nack_row j.max_retries (suc j.retry_count) now r,
        i,
        unfold Router.nack in t,
        rw (reads.max_retries, reads.retry_count) (ground arith),
      )

  settle-Left :
      (o : Outcome) (x : Context) (job : Job) (now : ℕ) (r : Row) (j : Job) (s : System)
      → Stored c.scan job.id r j s.router.db
      → Left o x job.id r (settle store o x job now s).router.db
  unfolding Router.ack Router.requeue
  settle-Left succeeds x job now r j s h =
      let f = set_status completed empty now in
      let e = ack_found store c Memory.enqueue job.id now r j (backed s) h in
      let (i, t) =
        restored store c Memory.enqueue job.id f r j s.router.db _ (λ _. refl) refl h
          (ap (λ (x : Result Error (Unit {0}) × Backed MemoryQueue). x.1.db.rows) e)
          (ap (λ (x : Result Error (Unit {0}) × Backed MemoryQueue). x.1.db.driver) e) in
      (f r, i, t, (refl, refl))
  settle-Left fails live job now r j s h = nack-Left job now r j s h
  settle-Left fails expired job now r j s h = nack-Left job now r j s h
  settle-Left fails cancelled job now r j s h =
      let f = set_requeued now in
      let (i, scans, reads, e) = requeue_found store c Memory.enqueue job.id now r j (backed s) h in
      let found = find-update_self job.id f s.router.db.rows (λ _. refl) ∙ ap (map_row f) h.found in
      (f r, i, rw e (record { healthy = h.healthy; found = found; scans = scans }), (refl, refl))

  pub get_elem?-change :
      (f : Slot → Slot) (slots : List Slot) (id : ℕ) (slot : Slot)
      → get_elem? slots id ≡ some slot
      → get_elem? (change_slot f (get_elem? slots id) id slots) id ≡ some (f slot)
  get_elem?-change f slots id slot e = rw e (written slots id e)
    where
      written :
          (xs : List Slot) (i : ℕ)
          → get_elem? xs i ≡ some slot
          → get_elem? (set xs i (f slot)) i ≡ some (f slot)
      written [] i h = cc
      written (y ∷ ys) zero h = refl
      written (y ∷ ys) (suc i) h = written ys i h

  settle-slots :
      (o : Outcome) (x : Context) (job : Job) (now : ℕ) (s : System)
      → (settle store o x job now s).pool ≡ s.pool
  settle-slots succeeds x job now s = refl
  settle-slots fails live job now s = refl
  settle-slots fails expired job now s = refl
  settle-slots fails cancelled job now s = refl

  -- The end of `processJob`, on a driver that answers, for the stored job that the worker runs. It
  -- can still be read from the table. Without an error the job is completed. With one, a job whose
  -- context was cancelled by a preemption is pending again with the retries that it had, and any
  -- other has used up one, and has failed for good if it was the last. The worker's slot holds no
  -- current job, and keeps its preempting one.
  pub finish_job-Settles :
      (id : ℕ) (o : Outcome) (x : Context) (job : Job) (slot : Slot) (now : ℕ) (r : Row) (j : Job)
      (s : System)
      → Stored c.scan job.id r j s.router.db
      → get_elem? s.pool.slots id ≡ some slot
      → slot.current ≡ some (job, x)
      → let s' = finish_job store id o job now s in
        ((row : Row) × (i : Job) × Stored c.scan job.id row i s'.router.db × Settles o x r row)
        × (get_elem? s'.pool.slots id ≡ some (record slot { current = none }))
  unfolding finish_job
  finish_job-Settles id o x job slot now r j s h e run =
      let context : context_of (get_elem? s.pool.slots id) ≡ x = rw (e, run) refl in
      (
        rw context (settle-Left o x job now r j s h),
        rw (settle-slots o (context_of (get_elem? s.pool.slots id)) job now s)
            (get_elem?-change (λ y. record y { current = none }) s.pool.slots id slot e),
      )
