-- ===== src/Queue/Interface/Routing.antt =====
-- The router keeps the promises of the interface.
use rjq.Common.{
  ℕ, ◌+◌, str_eq, Bool, true, false, none, some, ◌≡◌, sym, ap, ◌∙◌, subst, All, inl, inr,
  if◌then◌else◌, length, Bool-cases, arith,
}
use rjq.Common.Monad.{Result, ok, err}
use rjq.Models.{Job, queue_type_priority, queue_type_rate_limited}
use rjq.Errors.{Error, text}
use rjq.Storage.Rows.Laws.{ids}
use rjq.Storage.Interface.{Storage}
use rjq.Storage.Contract.{Contract}
use rjq.Queue.Delivery.{Backed}
use rjq.Queue.Delivery.Keeps.{AllSafe, all_safe}
use rjq.Queue.Memory.{MemoryQueue}
use rjq.Queue.Memory
use rjq.Queue.Sorted.{SortedQueue}
use rjq.Queue.Sorted
use rjq.Queue.RateLimited
use rjq.Queue.Router.{Router}
use rjq.Queue.Router
use rjq.Queue.Interface.{memory_queue, sorted_queue, rate_limited_queue, router_queue}
use rjq.Queue.Interface.Channels.{
  memory_queue-Promises, enqueue-Enqueues, close-jobs, close-refuses,
}
use rjq.Queue.Interface.Ordered
use rjq.Queue.Interface.Limited.{rate_limited_queue-Promises}
use rjq.Queue.Interface.Promises.{Promises, Enqueues}
use rjq.Queue.Interface.Polling.{waiting, IsCalm, router_waits, router_dequeues}

Enqueues-beside :
    (k n m : ℕ) (x : Result Error (Unit {0})) (n' m' : ℕ)
    → Enqueues n x n'
    → m ≡ k + n
    → m' ≡ k + n'
    → Enqueues m x m'
Enqueues-beside k n m (ok _) n' m' h e f = omega arith
Enqueues-beside k n m (err _) n' m' h e f = omega arith

router-Enqueues :
    (job : Job) (r : Router)
    → Enqueues (waiting r) (Router.enqueue job r).0 (waiting (Router.enqueue job r).1)
unfolding Router.enqueue
router-Enqueues job r = elim (Bool-cases (str_eq job.queue_type queue_type_priority)) [
  | inl e ↦ rw e (
      Enqueues-beside (length r.fifo.jobs + length r.rate_limited.memory.jobs)
        (length r.priority.jobs) (waiting r) (Sorted.enqueue job r.priority).0
        (length (Sorted.enqueue job r.priority).1.jobs) _ (Ordered.sorted-Enqueues job r.priority)
        (omega arith) (omega arith))
  | inr e ↦ rw e (elim (Bool-cases (str_eq job.queue_type queue_type_rate_limited)) [
    | inl f ↦ rw f (
        Enqueues-beside (length r.fifo.jobs + length r.priority.jobs)
          (length r.rate_limited.memory.jobs) (waiting r)
          (Memory.enqueue job r.rate_limited.memory).0
          (length (Memory.enqueue job r.rate_limited.memory).1.jobs) _
          (enqueue-Enqueues job r.rate_limited.memory) (omega arith) (omega arith))
    | inr f ↦ rw f (
        Enqueues-beside (length r.priority.jobs + length r.rate_limited.memory.jobs)
          (length r.fifo.jobs) (waiting r) (Memory.enqueue job r.fifo).0
          (length (Memory.enqueue job r.fifo).1.jobs) _ (enqueue-Enqueues job r.fifo) (omega arith)
          (omega arith))
  ])
]

abbrev all_closed : Router → Router
all_closed r = record r {
  fifo = Memory.close r.fifo;
  priority = Sorted.close r.priority;
  rate_limited = record (r.rate_limited) {
    stopped = true;
    memory = Memory.close r.rate_limited.memory;
  };
}

-- What `Close` comes to where it does not panic.
close_lem : (r t : Router) → Router.close r ≡ some t → t ≡ all_closed r
unfolding Router.close RateLimited.close
close_lem r t = go r.rate_limited.stopped
  where
    go :
        (b : Bool)
        → (elim (if b
            then none
            else some (record (r.rate_limited) {
              stopped = true;
              memory = Memory.close r.rate_limited.memory;
            })) [
              | none ↦ none
              | some q ↦ some (record r {
                fifo = Memory.close r.fifo;
                priority = Sorted.close r.priority;
                rate_limited = q;
              })
            ])
          ≡ some t
        → t ≡ all_closed r
    go true h = cc
    go false h = cc

refused_all :
    (job : Job) (r : Router)
    → Router.enqueue job (all_closed r) ≡ (err (text "queue is closed"), all_closed r)
unfolding Router.enqueue
refused_all job r = elim (Bool-cases (str_eq job.queue_type queue_type_priority)) [
  | inl e ↦ rw e (
      ap
        (λ (x : Result Error (Unit {0}) × SortedQueue).
          (x.0, record (all_closed r) { priority = x.1 }))
        (Ordered.close-refuses job r.priority))
  | inr e ↦ rw e (elim (Bool-cases (str_eq job.queue_type queue_type_rate_limited)) [
    | inl f ↦ rw f (
        ap
          (λ (x : Result Error (Unit {0}) × MemoryQueue). (
            x.0,
            record (all_closed r) {
              rate_limited = record (all_closed r).rate_limited { memory = x.1 };
            },
          ))
          (close-refuses job r.rate_limited.memory))
    | inr f ↦ rw f (
        ap
          (λ (x : Result Error (Unit {0}) × MemoryQueue).
            (x.0, record (all_closed r) { fifo = x.1 }))
          (close-refuses job r.fifo))
  ])
]

router_queue-Promises :
    (store : Storage) (c : Contract store)
    → Promises (router_queue store) (λ r. ids r.db.rows) (All IsCalm) (All IsCalm)
unfolding router_queue Router.pending_count Router.ack Router.nack Router.set_processing
    Router.requeue Router.retry
router_queue-Promises store c =
    let safe : AllSafe (λ q. Unit {0}) store c Memory.enqueue (λ job q p. tt) =
      all_safe (λ q. Unit {0}) store c Memory.enqueue (λ job q p. tt) in
    let inner : Router → Backed MemoryQueue = λ r. record { db = r.db; queue = r.fifo } in
    record {
      enqueues = router-Enqueues;
      dequeues = router_dequeues;
      waits = router_waits;
      drains = λ s t e.
          ap waiting (close_lem s t e)
          ∙ omega (
            arith,
            ap length (close-jobs s.fifo),
            ap length (Ordered.close-jobs s.priority),
            ap length (close-jobs s.rate_limited.memory),
          );
      refuses = λ s t job e. (
        text "queue is closed",
        subst (λ u. Router.enqueue job u ≡ (err (text "queue is closed"), u))
            (sym (close_lem s t e)) (refused_all job s),
      );
      ack_keeps = λ id now s. (safe.ack_safe id now (inner s)).rows;
      nack_keeps = λ id now s. (safe.nack_safe id now (inner s)).rows;
      set_processing_keeps = λ id now s. (safe.set_processing_safe id now (inner s)).rows;
      requeue_keeps = λ id now s. (safe.requeue_safe id now (inner s)).rows;
      retry_keeps = λ id extra now s. (safe.retry_safe id extra now (inner s)).rows;
    }

-- MemoryQueue, SortedQueue, RateLimitedQueue and the router keep what the interface promises, over any
-- storage that keeps its contract. An accepted job is one more that waits, and a refused one leaves
-- the count as it was. A `Dequeue` or a `DequeueOrWait` that takes a job out, to return it or to wait
-- with it for a token, leaves one less, and any other the same, if the other goroutines leave the
-- numbers of the jobs in the priority queue and, of the router, in the rate-limited queue as they are
-- meanwhile. `Close` drops no job that waits, and after it no job is accepted and nothing changes.
-- Ack, Nack, SetProcessing, Requeue and Retry keep the jobs of the table, whatever the driver answers.
pub every_queue-Promises :
    (store : Storage) (c : Contract store)
    → Promises (memory_queue store) (λ s. ids s.db.rows) (λ v. Unit {0}) (λ w. Unit {0})
      × Promises (sorted_queue store) (λ s. ids s.db.rows) Ordered.AllCalm (λ w. Ordered.IsCalm w.1)
      × Promises (rate_limited_queue store) (λ s. ids s.db.rows) (λ v. Unit {0}) (λ w. Unit {0})
      × Promises (router_queue store) (λ r. ids r.db.rows) (All IsCalm) (All IsCalm)
every_queue-Promises store c = (
  memory_queue-Promises store c,
  Ordered.sorted_queue-Promises store c,
  rate_limited_queue-Promises store c,
  router_queue-Promises store c,
)
