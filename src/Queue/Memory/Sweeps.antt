-- ===== src/Queue/Memory/Sweeps.antt =====
-- `sweep`: which jobs a pass of the sweeper puts into the FIFO queue, and what it does to the table.
use mathlib.Core.List.{append_assoc, append-nil}
use rjq.Common.{
  ℕ, suc, ◌+◌, ◌-◌, ◌≤◌, String, Bool, false, some, List, [], ◌∷◌, ◌++◌, ◌≡◌, refl, sym, ap, subst,
  ◌∙◌, inl, inr, if◌then◌else◌, ltb, length, length-append, All, keep, arith, Bool-cases,
}
use rjq.Common.Monad.{ok, return}
use rjq.Models.{Job, Status, pending, processing, completed, failed, empty}
use rjq.Storage.Rows.{Row, update, before, order_by}
use rjq.Storage.Rows.Laws.{All-update}
use rjq.Storage.Database.{Driver, Healthy, scan_rows, tick}
use rjq.Storage.Interface.{Storage}
use rjq.Storage.Sqlite.Updates.{set_status}
use rjq.Storage.Sqlite.Lists.{is_unfinished}
use rjq.Storage.Contract.{Contract}
use rjq.Queue.Delivery.{Backed, stuck_after, sweep_case, sweep_job, sweep_jobs}
use rjq.Queue.Delivery
use rjq.Queue.Delivery.Reads.{Ready, Known, AllKnown, Known-update}
use rjq.Queue.Delivery.Recovery.{reset-Ready}
use rjq.Queue.Delivery.Restart.{listed, none_skipped}
use rjq.Queue.Memory.{MemoryQueue, enqueue, sweep}

abbrev pub is_stuck : ℕ → Job → Bool
is_stuck now job = ltb stuck_after (now - job.updated_at)

-- The jobs that are enqueued for a listed one.
abbrev pub again : ℕ → Status → Job → List Job
again now pending job = job ∷ []
again now processing job = if is_stuck now job then record job { status = pending } ∷ [] else []
again now completed job = []
again now failed job = []

abbrev pub again_all : ℕ → List Job → List Job
again_all now [] = []
again_all now (job ∷ jobs) = again now job.status job ++ again_all now jobs

-- The rows of the stuck jobs are reset.
abbrev pub unstick : ℕ → Status → Job → List Row → List Row
unstick now pending job rows = rows
unstick now processing job rows =
    if is_stuck now job then update job.id (set_status pending empty now) rows else rows
unstick now completed job rows = rows
unstick now failed job rows = rows

abbrev pub unstick_all : ℕ → List Job → List Row → List Row
unstick_all now [] rows = rows
unstick_all now (job ∷ jobs) rows = unstick_all now jobs (unstick now job.status job rows)

-- What a part of a pass did, from one state to the next.
pub record Swept (new : List Job) (rows : List Row) (s t : Backed MemoryQueue) : Type 0 where
  pub queued : t.queue ≡ record (s.queue) { jobs = s.queue.jobs ++ new }
  pub rows' : t.db.rows ≡ rows
  pub driver' : t.db.driver ≡ s.db.driver

enqueue-room :
    (job : Job) (q : MemoryQueue)
    → q.closed ≡ false
    → suc (length q.jobs) ≤ q.capacity
    → enqueue job q ≡ (ok tt, record q { jobs = q.jobs ++ (job ∷ []) })
unfolding enqueue
enqueue-room job q o h = ground arith

Swept-none : (s : Backed MemoryQueue) → Swept [] s.db.rows s s
Swept-none s = record { queued = rw (append-nil s.queue.jobs) refl; rows' = refl; driver' = refl }

module _ (store : Storage) (c : Contract store) (now : ℕ) where
  case-Swept :
      (st : Status) (job : Job) (s : Backed MemoryQueue)
      → Ready c.scan s.db
      → Known job.id s.db.rows
      → s.queue.closed ≡ false
      → length s.queue.jobs + length (again now st job) ≤ s.queue.capacity
      → Swept
          (again now st job)
          (unstick now st job s.db.rows)
          s
          (sweep_case store enqueue none_skipped now st job s).1
  case-Swept pending job s h k o room =
      let e = enqueue-room job s.queue o (omega (arith, room)) in
      rw e (record { queued = refl; rows' = refl; driver' = refl })
  case-Swept processing job s h k o room = elim (Bool-cases (is_stuck now job)) [
    | inr b ↦ simp b (Swept-none s)
    | inl b ↦
        let room' = simp b at room in
        let (_, x) =
          reset-Ready store c enqueue none_skipped (return tt) (λ db. (refl, refl, refl)) now job.id
            s.db h k in
        let e = enqueue-room (record job { status = pending }) s.queue o (omega (arith, room')) in
        simp (b, x, e) (record { queued = refl; rows' = refl; driver' = refl })
  ]
  case-Swept completed job s h k o room = Swept-none s
  case-Swept failed job s h k o room = Swept-none s

  -- What the table of a state keeps while the pass goes on.
  unstick-Known :
      (st : Status) (job : Job) (id : String) (rows : List Row)
      → Known id rows
      → Known id (unstick now st job rows)
  unstick-Known pending job id rows k = k
  unstick-Known completed job id rows k = k
  unstick-Known failed job id rows k = k
  unstick-Known processing job id rows k = elim (Bool-cases (is_stuck now job)) [
    | inl b ↦ simp b (Known-update id job.id (set_status pending empty now) rows (λ _. refl) k)
    | inr b ↦ simp b k
  ]

  unstick-AllKnown :
      (job : Job) (jobs : List Job) (rows : List Row)
      → AllKnown jobs rows
      → AllKnown jobs (unstick now job.status job rows)
  unstick-AllKnown job [] rows k = tt
  unstick-AllKnown job (j ∷ jobs) rows k =
      (unstick-Known job.status job j.id rows k.0, unstick-AllKnown job jobs rows k.1)

  unstick-scans :
      (d : Driver) (st : Status) (job : Job) (rows : List Row)
      → All (λ r. (j : Job) × (c.scan d r ≡ some j)) rows
      → All (λ r. (j : Job) × (c.scan d r ≡ some j)) (unstick now st job rows)
  unstick-scans d pending job rows h = h
  unstick-scans d completed job rows h = h
  unstick-scans d failed job rows h = h
  unstick-scans d processing job rows h = elim (Bool-cases (is_stuck now job)) [
    | inl b ↦ simp b (
        All-update _ job.id (set_status pending empty now) rows
          (λ r x. c.scan_again d r _ x.0 refl x.1) h)
    | inr b ↦ simp b h
  ]

  jobs-Swept :
      (jobs : List Job) (s : Backed MemoryQueue)
      → Ready c.scan s.db
      → AllKnown jobs s.db.rows
      → s.queue.closed ≡ false
      → length s.queue.jobs + length (again_all now jobs) ≤ s.queue.capacity
      → Swept
          (again_all now jobs)
          (unstick_all now jobs s.db.rows)
          s
          (sweep_jobs store enqueue none_skipped now jobs s)
  unfolding sweep_jobs sweep_job
  jobs-Swept [] s h k o room = Swept-none s
  jobs-Swept (job ∷ jobs) s h k o room =
      let new = again now job.status job in
      let rest = again_all now jobs in
      let l = length-append new rest in
      let one = case-Swept job.status job s h k.0 o (omega (arith, room, l)) in
      let t = (sweep_case store enqueue none_skipped now job.status job s).1 in
      let jobs' = ap (λ (q : MemoryQueue). q.jobs) one.queued in
      let more =
        jobs-Swept jobs t
          (record {
            healthy = subst Healthy (sym one.driver') h.healthy;
            scans =
                rw (one.rows', one.driver')
                  (unstick-scans s.db.driver job.status job s.db.rows h.scans);
          })
          (rw one.rows' (unstick-AllKnown job jobs s.db.rows k.1))
          (ap (λ (q : MemoryQueue). q.closed) one.queued ∙ o)
          (rw one.queued (omega (arith, room, l, length-append s.queue.jobs new))) in
      record {
        queued =
            more.queued
            ∙ rw one.queued
                (ap (λ l. record (s.queue) { jobs = l }) (append_assoc s.queue.jobs new rest));
        rows' = more.rows' ∙ ap (unstick_all now jobs) one.rows';
        driver' = more.driver' ∙ one.driver';
      }

  -- A pass of the sweeper of the FIFO queue on a driver that answers, over a table whose rows scan,
  -- with an open queue that has room for what the pass enqueues: of the jobs that the table lists, in
  -- their order, every pending one is put at the end of the queue, whether or not it stands there
  -- already, and so is, as a pending one, each that is in processing since more than ten minutes. The
  -- rows of the latter are pending again, and the others are as before.
  pub sweep-Swept :
      (s : Backed MemoryQueue) (jobs : List Job)
      → Ready c.scan s.db
      → scan_rows (c.scan s.db.driver) (order_by before (keep is_unfinished s.db.rows)) ≡ some jobs
      → s.queue.closed ≡ false
      → length s.queue.jobs + length (again_all now jobs) ≤ s.queue.capacity
      → Swept (again_all now jobs) (unstick_all now jobs s.db.rows) s (sweep store now s)
  unfolding Delivery.sweep
  sweep-Swept s jobs h e o room =
      let t : Backed MemoryQueue = record s { db = tick s.db } in
      let (js, l) = listed store c enqueue s.db h in
      let same : js ≡ jobs = ground (arith, l.scanned) in
      let known : AllKnown jobs s.db.rows = subst (λ js. AllKnown js s.db.rows) same l.known in
      let swept =
        jobs-Swept jobs t (record { healthy = h.healthy; scans = h.scans }) known o room in
      simp (c.list_found jobs s.db h.healthy e)
        (record { queued = swept.queued; rows' = swept.rows'; driver' = swept.driver' })
