-- ===== src/Queue/Memory.antt =====
-- internal/queue/memory_queue.go: the FIFO queue over a buffered channel. A call runs to its end
-- before another begins: a full channel is still full when the five seconds of `Enqueue` are over,
-- and `Close` finds no `Enqueue` under way. `jobs` is the channel's buffer, the oldest job first.
pub mod Channel
pub mod Threads
pub mod Sweeps
use rjq.Common.{
  ℕ, String, Bool, true, false, Option, none, some, List, [], ◌∷◌, ◌++◌, if◌then◌else◌, ltb, length,
}
use rjq.Common.Monad.{ok, err, Method}
use rjq.Models.{Job}
use rjq.Errors.{Error, text, jobs_recovered}
use rjq.Storage.Database.{count_metric}
use rjq.Storage.Interface.{Storage}
use rjq.Queue.Delivery.{Backed}
use rjq.Queue.Delivery

pub record MemoryQueue : Type 0 where
  pub jobs : List Job
  pub capacity : ℕ
  pub closed : Bool

abbrev pub new_memory_queue : ℕ → MemoryQueue
new_memory_queue buffer_size = record { jobs = []; capacity = buffer_size; closed = false }

unfoldable pub enqueue : Job → Method MemoryQueue Error (Unit {0})
enqueue job q =
    if q.closed
    then (err (text "queue is closed"), q)
    else if ltb (length q.jobs) q.capacity
    then (ok tt, record q { jobs = q.jobs ++ (job ∷ []) })
    else (err (text "queue is full, timed out waiting for space"), q)

-- A receive from the channel; of an empty one it blocks, or says that the channel is closed.
pub data Received : Type 0 where
  got : Job → Received
  shut blocks : Received

abbrev pub receive_from : List Job → MemoryQueue → Received × MemoryQueue
receive_from [] q = if q.closed then (shut, q) else (blocks, q)
receive_from (job ∷ rest) q = (got job, record q { jobs = rest })

unfoldable pub receive : MemoryQueue → Received × MemoryQueue
receive q = receive_from q.jobs q

-- `Dequeue`; the inner `none` is the nil job, the outer one a call that blocks.
abbrev pub dequeued : Received × MemoryQueue → Option (Option Job) × MemoryQueue
dequeued (got job, q) = (some (some job), q)
dequeued (shut, q) = (some none, q)
dequeued (blocks, q) = (none, q)

unfoldable pub dequeue : MemoryQueue → Option (Option Job) × MemoryQueue
unfolding receive
dequeue q = dequeued (receive q)

-- `DequeueOrWait`. Where the channel and the timer are both ready, `select` takes either:
-- `expired` says that it takes the timer.
abbrev pub received : Received × MemoryQueue → Option Job × MemoryQueue
received (got job, q) = (some job, q)
received (shut, q) = (none, q)
received (blocks, q) = (none, q)

unfoldable pub dequeue_or_wait : Bool → MemoryQueue → Option Job × MemoryQueue
unfolding receive
dequeue_or_wait expired q = if expired then (none, q) else received (receive q)

unfoldable pub pending_count : MemoryQueue → ℕ
pending_count q = length q.jobs

unfoldable pub close : MemoryQueue → MemoryQueue
close q = if q.closed then q else record q { closed = true }

-- `Recover` and `sweep` take the jobs of every queue type.
abbrev pub skips : Job → Bool
skips job = false

module _ (store : Storage) where
  abbrev pub ack : String → ℕ → Method (Backed MemoryQueue) Error (Unit {0})
  ack = Delivery.ack store enqueue

  abbrev pub nack : String → ℕ → Method (Backed MemoryQueue) Error (Unit {0})
  nack = Delivery.nack store enqueue

  abbrev pub set_processing : String → ℕ → Method (Backed MemoryQueue) Error (Unit {0})
  set_processing = Delivery.set_processing store enqueue

  abbrev pub requeue : String → ℕ → Method (Backed MemoryQueue) Error (Unit {0})
  requeue = Delivery.requeue store enqueue

  abbrev pub retry : String → ℕ → ℕ → Method (Backed MemoryQueue) Error (Unit {0})
  retry = Delivery.retry store enqueue

  -- Each job enqueued increments `JobsRecovered`.
  abbrev pub recover : ℕ → Method (Backed MemoryQueue) Error (Unit {0})
  recover = Delivery.recover store enqueue skips (count_metric jobs_recovered)

  abbrev pub sweep : ℕ → Backed MemoryQueue → Backed MemoryQueue
  sweep = Delivery.sweep store enqueue skips
