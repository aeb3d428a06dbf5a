-- ===== src/Queue/Sorted.antt =====
-- internal/queue/sorted_que.go: the queue that is ordered by priority and creation time. Each
-- critical section of the mutex is one step. `done` is closed exactly when `closed` is set.
pub mod Order
pub mod Calls
pub mod Refinement
pub mod Waiters
use rjq.Common.{
  ℕ, zero, suc, String, Bool, true, false, ◌&&◌, ◌||◌, not, Option, none, some, List, [], ◌∷◌, ◌++◌,
  if◌then◌else◌, ltb, ◌==◌, length, take, drop,
}
use rjq.Common.Monad.{ok, err, Method, return}
use rjq.Models.{Job, in_priority_queue}
use rjq.Errors.{Error, text}
use rjq.Storage.Interface.{Storage}
use rjq.Queue.Delivery.{Backed}
use rjq.Queue.Delivery

-- `signal` says whether the channel of capacity 1 holds a token.
pub record SortedQueue : Type 0 where
  pub jobs : List Job
  pub signal : Bool
  pub closed : Bool

abbrev pub new_sorted_queue : SortedQueue
new_sorted_queue = record { jobs = []; signal = false; closed = false }

-- The two tests that end the loop of `insertLocked` at `cur`.
abbrev pub goes_before : Job → Job → Bool
goes_before job cur =
    ltb cur.priority job.priority
    || (job.priority == cur.priority) && ltb job.created_at cur.created_at

-- The index at which the loop of `insertLocked` ends.
unfoldable pub insert_index : Job → List Job → ℕ
insert_index job [] = zero
insert_index job (cur ∷ rest) = if goes_before job cur then zero else suc (insert_index job rest)

-- The append, the copy of the tail one place up, and the write at `i`.
unfoldable pub splice : ℕ → Job → List Job → List Job
splice i job jobs = take i jobs ++ (job ∷ drop i jobs)

unfoldable pub insert_locked : Job → List Job → List Job
unfolding insert_index splice
insert_locked job jobs = splice (insert_index job jobs) job jobs

-- The send on `signal` does not block: a full channel stays full.
unfoldable pub enqueue : Job → Method SortedQueue Error (Unit {0})
unfolding insert_locked
enqueue job q =
    if q.closed
    then (err (text "queue is closed"), q)
    else (ok tt, record q { jobs = insert_locked job q.jobs; signal = true })

abbrev pub pop_jobs : List Job → SortedQueue → Option Job × SortedQueue
pop_jobs [] q = (none, q)
pop_jobs (job ∷ rest) q = (some job, record q { jobs = rest })

unfoldable pub pop_locked : SortedQueue → Option Job × SortedQueue
pop_locked q = pop_jobs q.jobs q

-- What ends a wait in `select`: a token of `signal`, `done`, or the timer.
pub data Wake : Type 0 where
  signalled closing elapsed : Wake

-- The `select`, and the second critical section of `DequeueOrWait`.
abbrev pub wake_up : Wake → SortedQueue → Option Job × SortedQueue
wake_up signalled q = pop_locked (record q { signal = false })
wake_up closing q = (none, q)
wake_up elapsed q = (none, q)

-- `others` is what other goroutines do to the queue during the wait.
abbrev pub wait_more :
    Wake → (SortedQueue → SortedQueue) → Option Job × SortedQueue → Option Job × SortedQueue
wait_more w others (some job, q) = (some job, q)
wait_more w others (none, q) = if q.closed then (none, q) else wake_up w (others q)

unfoldable pub dequeue_or_wait :
    Wake → (SortedQueue → SortedQueue) → SortedQueue → Option Job × SortedQueue
unfolding pop_locked
dequeue_or_wait w others q = wait_more w others (pop_locked q)

-- `Dequeue`, which waits without a timer. Each entry of the list is one wait: whether a token of
-- `signal` ends it, and not `done`, and what other goroutines do to the queue during it. Where the
-- list ends, the call still waits, which is the outer `none`.
abbrev pub or_wait :
    (SortedQueue → Option (Option Job) × SortedQueue)
    → Option Job × SortedQueue
    → Option (Option Job) × SortedQueue
or_wait more (some job, q) = (some (some job), q)
or_wait more (none, q) = if q.closed then (some none, q) else more q

unfoldable pub dequeue :
    List (Bool × (SortedQueue → SortedQueue)) → SortedQueue → Option (Option Job) × SortedQueue
unfolding pop_locked
dequeue [] q = or_wait (λ r. (none, r)) (pop_locked q)
dequeue ((true, others) ∷ waits) q =
    or_wait (λ r. dequeue waits (record (others r) { signal = false })) (pop_locked q)
dequeue ((false, others) ∷ waits) q = or_wait (λ r. (some none, others r)) (pop_locked q)

unfoldable pub pending_count : SortedQueue → ℕ
pending_count q = length q.jobs

unfoldable pub close : SortedQueue → SortedQueue
close q = if q.closed then q else record q { closed = true }

-- `job.QueueType != models.QueueTypePriority`
abbrev pub skips : Job → Bool
skips job = not (in_priority_queue job)

module _ (store : Storage) where
  abbrev pub ack : String → ℕ → Method (Backed SortedQueue) Error (Unit {0})
  ack = Delivery.ack store enqueue

  abbrev pub nack : String → ℕ → Method (Backed SortedQueue) Error (Unit {0})
  nack = Delivery.nack store enqueue

  abbrev pub set_processing : String → ℕ → Method (Backed SortedQueue) Error (Unit {0})
  set_processing = Delivery.set_processing store enqueue

  abbrev pub requeue : String → ℕ → Method (Backed SortedQueue) Error (Unit {0})
  requeue = Delivery.requeue store enqueue

  abbrev pub retry : String → ℕ → ℕ → Method (Backed SortedQueue) Error (Unit {0})
  retry = Delivery.retry store enqueue

  -- No counter is incremented here.
  abbrev pub recover : ℕ → Method (Backed SortedQueue) Error (Unit {0})
  recover = Delivery.recover store enqueue skips (return tt)

  abbrev pub sweep : ℕ → Backed SortedQueue → Backed SortedQueue
  sweep = Delivery.sweep store enqueue skips
