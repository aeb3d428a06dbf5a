-- ===== src/Queue/Memory/Channel.antt =====
-- The FIFO queue: what the channel takes in, hands out and gets back on a restart.
use mathlib.Core.List.{append_assoc, append-nil}
use rjq.Common.{
  ℕ, ◌+◌, ◌≤◌, false, some, List, [], ◌∷◌, ◌++◌, map, ◌≡◌, refl, sym, ap, ◌∙◌, inl, inr, ltb,
  length, length-append, All, keep, arith, Bool-cases,
}
use rjq.Common.Monad.{Result, ok, err}
use rjq.Models.{Job, is_processing}
use rjq.Errors.{Error, jobs_recovered}
use rjq.Storage.Rows.{before, order_by}
use rjq.Storage.Database.{scan_rows, count_metric}
use rjq.Storage.Interface.{Storage}
use rjq.Storage.Sqlite.Lists.{is_unfinished}
use rjq.Storage.Contract.{Contract}
use rjq.Queue.Delivery.{Backed}
use rjq.Queue.Delivery.Reads.{Ready, ready, enqueue_jobs, Accepts}
use rjq.Queue.Delivery.Restart.{none_skipped, recover-Restarts}
use rjq.Queue.Memory.{
  MemoryQueue, enqueue, receive_from, Received, got, shut, blocks, receive, close, recover,
}

-- A queue that is open and has room takes the jobs in their order.
pub Accepts-room :
    (jobs : List Job) (q : MemoryQueue)
    → q.closed ≡ false
    → length q.jobs + length jobs ≤ q.capacity
    → Accepts enqueue none_skipped jobs q
      × (enqueue_jobs enqueue none_skipped jobs q ≡ record q { jobs = q.jobs ++ map ready jobs })
Accepts-room [] q o h = (tt, rw (append-nil q.jobs))
Accepts-room (job ∷ jobs) q o h =
    let q' : MemoryQueue = record q { jobs = q.jobs ++ (ready job ∷ []) } in
    let e : enqueue (ready job) q ≡ (ok tt, q') = unfold enqueue in ground arith in
    let (a, b) = Accepts-room jobs q' o (omega (arith, length-append q.jobs (ready job ∷ []))) in
    (
      (inr (rw e refl), rw e a),
      rw e (
          b
          ∙ ap (λ l. record q { jobs = l })
              (append_assoc q.jobs (ready job ∷ []) (map ready jobs))),
    )

-- The queue after a restart.
pub record Restarted (s : Backed MemoryQueue) (jobs : List Job)
    (x : Result Error (Unit {0}) × Backed MemoryQueue) : Type 0 where
  pub returns : x.0 ≡ ok tt
  pub queued : x.1.queue.jobs ≡ s.queue.jobs ++ map ready jobs
  pub settled : All (λ r. is_processing r.status ≡ false) x.1.db.rows

module _ (store : Storage) (c : Contract store) where
  -- `Recover` of the FIFO queue on a driver that answers, over a table whose rows all scan and
  -- whose unfinished jobs fit into the open queue: it succeeds, the unfinished jobs stand at the end
  -- of the queue in the order in which the table lists them, each of them pending, and no row is
  -- left in processing.
  pub recover-Restarted :
      (now : ℕ) (s : Backed MemoryQueue) (jobs : List Job)
      → Ready c.scan s.db
      → scan_rows (c.scan s.db.driver) (order_by before (keep is_unfinished s.db.rows)) ≡ some jobs
      → s.queue.closed ≡ false
      → length s.queue.jobs + length jobs ≤ s.queue.capacity
      → Restarted s jobs (recover store now s)
  recover-Restarted now s jobs h e o room =
      let (a, b) = Accepts-room jobs s.queue o room in
      let r =
        recover-Restarts store c enqueue (count_metric jobs_recovered) (λ db. (refl, refl, refl))
          now s jobs h e a in
      record {
        returns = r.returns;
        queued = ap (λ (q : MemoryQueue). q.jobs) (r.queue' ∙ b);
        settled = r.settled;
      }

pub data Call : Type 0 where
  enqueues : Job → Call
  receives closes : Call

-- The queue with the jobs that it has taken in and those that it has handed out, the oldest first.
pub record Run : Type 0 where
  pub queue : MemoryQueue
  pub accepted : List Job
  pub served : List Job

abbrev accept : Job → Run → Result Error (Unit {0}) × MemoryQueue → Run
accept job s (ok _, q) = record s { queue = q; accepted = s.accepted ++ (job ∷ []) }
accept job s (err _, q) = record s { queue = q }

abbrev serve : Run → Received × MemoryQueue → Run
serve s (got job, q) = record s { queue = q; served = s.served ++ (job ∷ []) }
serve s (shut, q) = record s { queue = q }
serve s (blocks, q) = record s { queue = q }

unfoldable pub step : Run → Call → Run
unfolding enqueue receive close
step s (enqueues job) = accept job s (enqueue job s.queue)
step s receives = serve s (receive s.queue)
step s closes = record s { queue = close s.queue }

unfoldable pub run : Run → List Call → Run
unfolding step
run s [] = s
run s (c ∷ cs) = run (step s c) cs

pub record Inv (s : Run) : Type 0 where
  pub order : s.served ++ s.queue.jobs ≡ s.accepted
  pub fits : length s.queue.jobs ≤ s.queue.capacity

enqueue-Inv : (s : Run) (job : Job) → Inv s → Inv (accept job s (enqueue job s.queue))
unfolding enqueue
enqueue-Inv s job v = elim (Bool-cases s.queue.closed) [
  | inl e ↦ simp e (record { order = v.order; fits = v.fits })
  | inr e ↦ elim (Bool-cases (ltb (length s.queue.jobs) s.queue.capacity)) [
    | inr f ↦ simp (e, f) (record { order = v.order; fits = v.fits })
    | inl f ↦
        simp (e, f)
          (record {
            order =
                sym (append_assoc s.served s.queue.jobs (job ∷ []))
                ∙ ap (λ l. l ++ (job ∷ [])) v.order;
            fits = let l = length-append s.queue.jobs (job ∷ []) in ground (arith, l);
          })
  ]
]

receive-Inv :
    (s : Run) (jobs : List Job)
    → s.queue.jobs ≡ jobs
    → Inv s
    → Inv (serve s (receive_from jobs s.queue))
receive-Inv s [] e v = elim (Bool-cases s.queue.closed) [
  | inl f ↦ simp f (record { order = v.order; fits = v.fits })
  | inr f ↦ simp f (record { order = v.order; fits = v.fits })
]
receive-Inv s (job ∷ rest) e v = record {
  order = append_assoc s.served (job ∷ []) rest ∙ (rw e at v.order);
  fits = let f : length (job ∷ rest) ≤ s.queue.capacity = rw e at v.fits in omega (arith, f);
}

close-Inv : (s : Run) → Inv s → Inv (record s { queue = close s.queue })
unfolding close
close-Inv s v = elim (Bool-cases s.queue.closed) [
  | inl f ↦ simp f (record { order = v.order; fits = v.fits })
  | inr f ↦ simp f (record { order = v.order; fits = v.fits })
]

step-Inv : (s : Run) (c : Call) → Inv s → Inv (step s c)
unfolding step
step-Inv s (enqueues job) v = enqueue-Inv s job v
step-Inv s receives v = receive-Inv s s.queue.jobs refl v
step-Inv s closes v = close-Inv s v

-- Over any calls, from a state in which this holds, the jobs that the FIFO queue has handed out,
-- followed by those that it holds, are the jobs that it has taken in, in their order, and it never
-- holds more than its capacity.
pub run-Inv : (s : Run) (cs : List Call) → Inv s → Inv (run s cs)
unfolding run
run-Inv s [] v = v
run-Inv s (c ∷ cs) v = run-Inv (step s c) cs (step-Inv s c v)
