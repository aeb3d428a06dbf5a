-- ===== src/Queue/Interface/Channels.antt =====
-- MemoryQueue keeps the promises of the interface.
use rjq.Common.{
  ℕ, suc, Bool, true, false, some, List, [], ◌∷◌, ◌≡◌, refl, ap, subst, inl, inr, if◌then◌else◌,
  ltb, length, length-append, Bool-cases, arith,
}
use rjq.Common.Monad.{err}
use rjq.Models.{Job}
use rjq.Errors.{text}
use rjq.Storage.Rows.Laws.{ids}
use rjq.Storage.Interface.{Storage}
use rjq.Storage.Contract.{Contract}
use rjq.Queue.Delivery.{on_queue, set_queue}
use rjq.Queue.Delivery.Keeps.{AllSafe, all_safe}
use rjq.Queue.Memory.{MemoryQueue, receive}
use rjq.Queue.Memory
use rjq.Queue.Router.{served}
use rjq.Queue.Interface
use rjq.Queue.Interface.{memory_queue}
use rjq.Queue.Interface.Promises.{Promises, Enqueues, Delivers}

pub enqueue-Enqueues :
    (job : Job) (q : MemoryQueue)
    → Enqueues (length q.jobs) (Memory.enqueue job q).0 (length (Memory.enqueue job q).1.jobs)
unfolding Memory.enqueue
enqueue-Enqueues job q = elim (Bool-cases q.closed) [
  | inl e ↦ rw e refl
  | inr e ↦ rw e (elim (Bool-cases (ltb (length q.jobs) q.capacity)) [
    | inl f ↦ rw f (omega (arith, length-append q.jobs (job ∷ [])))
    | inr f ↦ rw f refl
  ])
]

-- A receive takes one job out, or none.
abbrev pub Takes : ℕ → Memory.Received × MemoryQueue → Type 0
Takes n (Memory.got job, q) = n ≡ suc (length q.jobs)
Takes n (Memory.shut, q) = length q.jobs ≡ n
Takes n (Memory.blocks, q) = length q.jobs ≡ n

pub receive-Takes : (q : MemoryQueue) → Takes (length q.jobs) (receive q)
unfolding receive
receive-Takes q = go q.jobs refl
  where
    none_there :
        (b : Bool) → Takes (length q.jobs) (if b then (Memory.shut, q) else (Memory.blocks, q))
    none_there true = refl
    none_there false = refl

    go : (jobs : List Job) → q.jobs ≡ jobs → Takes (length q.jobs) (Memory.receive_from jobs q)
    go [] e = none_there q.closed
    go (job ∷ rest) e = ap length e

memory_dequeues :
    (q : MemoryQueue)
    → Delivers
        (length q.jobs)
        (Interface.came (Memory.dequeue q).0)
        (length (Memory.dequeue q).1.jobs)
unfolding Memory.dequeue
memory_dequeues q = go (receive q) (receive-Takes q)
  where
    go :
        (x : Memory.Received × MemoryQueue)
        → Takes (length q.jobs) x
        → Delivers
            (length q.jobs)
            (Interface.came (Memory.dequeued x).0)
            (length (Memory.dequeued x).1.jobs)
    go (Memory.got job, q') h = h
    go (Memory.shut, q') h = h
    go (Memory.blocks, q') h = h

pub memory_waits :
    (expired : Bool) (q : MemoryQueue)
    → Delivers
        (length q.jobs)
        (served (Memory.dequeue_or_wait expired q).0)
        (length (Memory.dequeue_or_wait expired q).1.jobs)
unfolding Memory.dequeue_or_wait
memory_waits true q = refl
memory_waits false q = go (receive q) (receive-Takes q)
  where
    go :
        (x : Memory.Received × MemoryQueue)
        → Takes (length q.jobs) x
        → Delivers
            (length q.jobs)
            (served (Memory.received x).0)
            (length (Memory.received x).1.jobs)
    go (Memory.got job, q') h = h
    go (Memory.shut, q') h = h
    go (Memory.blocks, q') h = h

pub close-jobs : (q : MemoryQueue) → (Memory.close q).jobs ≡ q.jobs
unfolding Memory.close
close-jobs q = elim (Bool-cases q.closed) [ inl e ↦ rw e refl | inr e ↦ rw e refl ]

pub close-refuses :
    (job : Job) (q : MemoryQueue)
    → Memory.enqueue job (Memory.close q) ≡ (err (text "queue is closed"), Memory.close q)
unfolding Memory.close Memory.enqueue
close-refuses job q = elim (Bool-cases q.closed) [ inl e ↦ simp e | inr e ↦ simp e ]

-- What is known of the closed queue holds of the state that `Close` leaves.
pub after_close : {S : Type 0} (P : S → Type 0) (s t : S) → some s ≡ some t → P s → P t
after_close P s t e h = subst P (cc) h

pub memory_queue-Promises :
    (store : Storage) (c : Contract store)
    → Promises (memory_queue store) (λ s. ids s.db.rows) (λ v. Unit {0}) (λ w. Unit {0})
unfolding memory_queue
memory_queue-Promises store c =
    let safe : AllSafe (λ q. Unit {0}) store c Memory.enqueue (λ job q p. tt) =
      all_safe (λ q. Unit {0}) store c Memory.enqueue (λ job q p. tt) in
    record {
      enqueues = λ job s. enqueue-Enqueues job s.queue;
      dequeues = λ v s h. memory_dequeues s.queue;
      waits = λ expired s h. memory_waits expired s.queue;
      drains = λ s t e.
          after_close (λ u. length u.queue.jobs ≡ length s.queue.jobs) _ t e
            (ap length (close-jobs s.queue));
      refuses = λ s t job e. (
        text "queue is closed",
        after_close (λ u. on_queue (Memory.enqueue job) u ≡ (err (text "queue is closed"), u)) _ t e
            (ap (set_queue s.db) (close-refuses job s.queue)),
      );
      ack_keeps = λ id now s. (safe.ack_safe id now s).rows;
      nack_keeps = λ id now s. (safe.nack_safe id now s).rows;
      set_processing_keeps = λ id now s. (safe.set_processing_safe id now s).rows;
      requeue_keeps = λ id now s. (safe.requeue_safe id now s).rows;
      retry_keeps = λ id extra now s. (safe.retry_safe id extra now s).rows;
    }
