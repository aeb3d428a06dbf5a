-- ===== src/Queue/Router.antt =====
-- internal/queue/router.go: the three queues over one storage, behind the `Queue` interface.
pub mod Calls
pub mod Sound
pub mod Recovery
use rjq.Common.{ℕ, ◌+◌, String, Bool, Option, none, some, List, [], ◌∷◌, if◌then◌else◌, ltb, str_eq}
use rjq.Common.Monad.{◌>>◌, ◌>>=◌, Method}
use rjq.Models.{Job, queue_type_priority, queue_type_rate_limited}
use rjq.Errors.{Error, wrapping}
use rjq.Storage.Database.{Database}
use rjq.Storage.Interface.{Storage}
use rjq.Queue.Delivery.{Backed}
use rjq.Queue.Sorted.{SortedQueue}
use rjq.Queue.Sorted
use rjq.Queue.Memory.{MemoryQueue}
use rjq.Queue.Memory
use rjq.Queue.RateLimited.{RateLimitedQueue, Delivery, delivered, nothing, blocked, holding}
use rjq.Queue.RateLimited

pub record Router : Type 0 where
  pub db : Database
  pub fifo : MemoryQueue
  pub priority : SortedQueue
  pub rate_limited : RateLimitedQueue

-- A method of one of the queues, with the shared storage.
abbrev pub on_fifo : {A : Type 0} → Method (Backed MemoryQueue) Error A → Method Router Error A
on_fifo m r =
    let (x, s) = m (record { db = r.db; queue = r.fifo }) in
    (x, record r { db = s.db; fifo = s.queue })

abbrev pub on_priority : {A : Type 0} → Method (Backed SortedQueue) Error A → Method Router Error A
on_priority m r =
    let (x, s) = m (record { db = r.db; queue = r.priority }) in
    (x, record r { db = s.db; priority = s.queue })

abbrev pub on_rate_limited :
    {A : Type 0} → Method (Backed MemoryQueue) Error A → Method Router Error A
on_rate_limited m r =
    let (x, s) = m (record { db = r.db; queue = r.rate_limited.memory }) in
    (x, record r { db = s.db; rate_limited = record (r.rate_limited) { memory = s.queue } })

unfoldable pub enqueue : Job → Method Router Error (Unit {0})
unfolding Memory.enqueue Sorted.enqueue
enqueue job r =
    if str_eq job.queue_type queue_type_priority
    then (let (x, q) = Sorted.enqueue job r.priority in (x, record r { priority = q }))
    else if str_eq job.queue_type queue_type_rate_limited
    then (let (x, q) = RateLimited.promoted (Memory.enqueue job) r.rate_limited in
        (x, record r { rate_limited = q }))
    else (let (x, q) = Memory.enqueue job r.fifo in (x, record r { fifo = q }))

-- The choices that are open in one pass of the loop: whether each `select` takes its timer, what
-- ends the wait on the priority queue, what other goroutines do to the rate-limited queue between the
-- look at its tokens and the call, and the ticks during a wait for a token.
pub record Pass : Type 0 where
  pub wake : Sorted.Wake
  pub others : SortedQueue → SortedQueue
  pub meanwhile : RateLimitedQueue → RateLimitedQueue
  pub rate_expired : Bool
  pub sleeps : List ℕ
  pub fifo_expired : Bool

-- A nil job is nothing.
abbrev pub served : Option Job → Delivery
served none = nothing
served (some job) = delivered job

abbrev pub poll_fifo : Pass → Router → Delivery × Router
poll_fifo p r =
    let (x, q) = Memory.dequeue_or_wait p.fifo_expired r.fifo in (served x, record r { fifo = q })

abbrev pub or_fifo : Pass → Router → Delivery × RateLimitedQueue → Delivery × Router
or_fifo p r (delivered job, q) = (delivered job, record r { rate_limited = q })
or_fifo p r (nothing, q) = poll_fifo p (record r { rate_limited = q })
or_fifo p r (blocked, q) = (blocked, record r { rate_limited = q })
or_fifo p r (holding job, q) = (holding job, record r { rate_limited = q })

-- The rate-limited queue is asked only if a token was there.
abbrev pub poll_rate_limited : Pass → Router → Delivery × Router
poll_rate_limited p r =
    if ltb 0 (RateLimited.available_tokens r.rate_limited)
    then or_fifo p r
        (RateLimited.dequeue_or_wait p.rate_expired p.sleeps (p.meanwhile r.rate_limited))
    else poll_fifo p r

abbrev pub or_rate_limited : Pass → Router → Option Job × SortedQueue → Delivery × Router
or_rate_limited p r (some job, q) = (delivered job, record r { priority = q })
or_rate_limited p r (none, q) = poll_rate_limited p (record r { priority = q })

-- One pass of the loops of `Dequeue` and `DequeueOrWait`.
unfoldable pub poll : Pass → Router → Delivery × Router
unfolding Sorted.dequeue_or_wait RateLimited.dequeue_or_wait RateLimited.available_tokens
    Memory.dequeue_or_wait
poll p r = or_rate_limited p r (Sorted.dequeue_or_wait p.wake p.others r.priority)

-- A pass that finds nothing sleeps and is followed by the next, in `DequeueOrWait` until the
-- deadline; the list holds the passes that begin before it.
unfoldable pub dequeue_or_wait : List Pass → Router → Delivery × Router
dequeue_or_wait [] r = (nothing, r)
dequeue_or_wait (p ∷ passes) r =
    let (x, r') = poll p r in
    elim x [
      | nothing ↦ dequeue_or_wait passes r'
      | delivered job ↦ (delivered job, r')
      | blocked ↦ (blocked, r')
      | holding job ↦ (holding job, r')
    ]

-- The same without a deadline; where the list ends, the call still polls.
unfoldable pub dequeue : List Pass → Router → Delivery × Router
dequeue [] r = (blocked, r)
dequeue (p ∷ passes) r =
    let (x, r') = poll p r in
    elim x [
      | nothing ↦ dequeue passes r'
      | delivered job ↦ (delivered job, r')
      | blocked ↦ (blocked, r')
      | holding job ↦ (holding job, r')
    ]

unfoldable pub pending_count : Router → ℕ
unfolding Memory.pending_count Sorted.pending_count
pending_count r =
    Memory.pending_count r.fifo
    + Sorted.pending_count r.priority
    + Memory.pending_count r.rate_limited.memory

-- `Close`; `none` is the panic of the rate-limited queue.
unfoldable pub close : Router → Option Router
unfolding Memory.close Sorted.close RateLimited.close
close r = elim (RateLimited.close r.rate_limited) [
  | none ↦ none
  | some q ↦ some (record r {
    fifo = Memory.close r.fifo;
    priority = Sorted.close r.priority;
    rate_limited = q;
  })
]

module _ (store : Storage) where
  unfoldable pub ack : String → ℕ → Method Router Error (Unit {0})
  ack id now = on_fifo (Memory.ack store id now)

  unfoldable pub nack : String → ℕ → Method Router Error (Unit {0})
  nack id now = on_fifo (Memory.nack store id now)

  unfoldable pub set_processing : String → ℕ → Method Router Error (Unit {0})
  set_processing id now = on_fifo (Memory.set_processing store id now)

  unfoldable pub requeue : String → ℕ → Method Router Error (Unit {0})
  requeue id now = on_fifo (Memory.requeue store id now)

  unfoldable pub retry : String → ℕ → ℕ → Method Router Error (Unit {0})
  retry id extra_retries now = on_fifo (Memory.retry store id extra_retries now)

  unfoldable pub recover : ℕ → Method Router Error (Unit {0})
  recover now = do
    wrapping "fifo recover" (on_fifo (Memory.recover store now))
    wrapping "priority recover" (on_priority (Sorted.recover store now))
    wrapping "rate-limited recover" (on_rate_limited (Memory.recover store now))
