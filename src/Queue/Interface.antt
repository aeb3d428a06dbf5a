-- ===== src/Queue/Interface.antt =====
-- internal/queue/interface.go: the interface `Queue`, and the four queues that implement it. `V` and
-- `W` are what happens during a call of `Dequeue` and of `DequeueOrWait`; time is an argument.
pub mod Promises
pub mod Channels
pub mod Ordered
pub mod Limited
pub mod Polling
pub mod Routing
use rjq.Common.{ℕ, String, Bool, Option, none, some, List}
use rjq.Common.Monad.{Method}
use rjq.Models.{Job}
use rjq.Errors.{Error}
use rjq.Storage.Interface.{Storage}
use rjq.Queue.Delivery.{Backed, on_queue}
use rjq.Queue.Memory.{MemoryQueue}
use rjq.Queue.Memory
use rjq.Queue.Sorted.{SortedQueue, Wake}
use rjq.Queue.Sorted
use rjq.Queue.RateLimited.{RateLimitedQueue, Delivery, delivered, nothing, blocked, promoted}
use rjq.Queue.RateLimited
use rjq.Queue.Router.{Router, Pass, served}
use rjq.Queue.Router

-- `Close` is `none` where it panics.
pub record Queue (S V W : Type 0) : Type 0 where
  pub enqueue : Job → Method S Error (Unit {0})
  pub dequeue : V → S → Delivery × S
  pub ack : String → ℕ → Method S Error (Unit {0})
  pub nack : String → ℕ → Method S Error (Unit {0})
  pub pending_count : S → ℕ
  pub close : S → Option S
  pub set_processing : String → ℕ → Method S Error (Unit {0})
  pub requeue : String → ℕ → Method S Error (Unit {0})
  pub retry : String → ℕ → ℕ → Method S Error (Unit {0})
  pub dequeue_or_wait : W → S → Delivery × S

-- A call of `Dequeue` that returned, with a job or nil, or that blocks.
abbrev pub came : Option (Option Job) → Delivery
came none = blocked
came (some none) = nothing
came (some (some job)) = delivered job

-- A call that does not touch the storage.
abbrev pub in_memory : {A Q : Type 0} → (Q → A × Q) → Backed Q → A × Backed Q
in_memory f s = let (x, q) = f s.queue in (x, record s { queue = q })

-- A method of the embedded `MemoryQueue`.
abbrev pub embedded :
    {A : Type 0} → Method (Backed MemoryQueue) Error A → Method (Backed RateLimitedQueue) Error A
embedded m s =
    let (x, t) = m (record { db = s.db; queue = s.queue.memory }) in
    (x, record { db = t.db; queue = record (s.queue) { memory = t.queue } })

abbrev pub closed_with : {Q : Type 0} → Backed Q → Option Q → Option (Backed Q)
closed_with s none = none
closed_with s (some q) = some (record s { queue = q })

module _ (store : Storage) where
  unfoldable pub memory_queue : Queue (Backed MemoryQueue) (Unit {0}) Bool
  unfolding Memory.enqueue Memory.dequeue Memory.dequeue_or_wait Memory.pending_count Memory.close
  memory_queue = record {
    enqueue = λ job. on_queue (Memory.enqueue job);
    dequeue = λ v. in_memory (λ q. let (o, q') = Memory.dequeue q in (came o, q'));
    ack = Memory.ack store;
    nack = Memory.nack store;
    pending_count = λ s. Memory.pending_count s.queue;
    close = λ s. some (record s { queue = Memory.close s.queue });
    set_processing = Memory.set_processing store;
    requeue = Memory.requeue store;
    retry = Memory.retry store;
    dequeue_or_wait = λ expired.
        in_memory (λ q. let (o, q') = Memory.dequeue_or_wait expired q in (served o, q'));
  }

  unfoldable pub sorted_queue :
      Queue
        (Backed SortedQueue)
        (List (Bool × (SortedQueue → SortedQueue)))
        (Wake × (SortedQueue → SortedQueue))
  unfolding Sorted.enqueue Sorted.dequeue Sorted.dequeue_or_wait Sorted.pending_count Sorted.close
  sorted_queue = record {
    enqueue = λ job. on_queue (Sorted.enqueue job);
    dequeue = λ waits. in_memory (λ q. let (o, q') = Sorted.dequeue waits q in (came o, q'));
    ack = Sorted.ack store;
    nack = Sorted.nack store;
    pending_count = λ s. Sorted.pending_count s.queue;
    close = λ s. some (record s { queue = Sorted.close s.queue });
    set_processing = Sorted.set_processing store;
    requeue = Sorted.requeue store;
    retry = Sorted.retry store;
    dequeue_or_wait =
        λ w. in_memory (λ q. let (o, q') = Sorted.dequeue_or_wait w.0 w.1 q in (served o, q'));
  }

  -- The methods that `RateLimitedQueue` does not define are those of the embedded queue.
  unfoldable pub rate_limited_queue : Queue (Backed RateLimitedQueue) (List ℕ) (Bool × List ℕ)
  unfolding Memory.enqueue RateLimited.dequeue RateLimited.dequeue_or_wait Memory.pending_count
      RateLimited.close
  rate_limited_queue = record {
    enqueue = λ job. on_queue (promoted (Memory.enqueue job));
    dequeue = λ sleeps. in_memory (RateLimited.dequeue sleeps);
    ack = λ id now. embedded (Memory.ack store id now);
    nack = λ id now. embedded (Memory.nack store id now);
    pending_count = λ s. Memory.pending_count s.queue.memory;
    close = λ s. closed_with s (RateLimited.close s.queue);
    set_processing = λ id now. embedded (Memory.set_processing store id now);
    requeue = λ id now. embedded (Memory.requeue store id now);
    retry = λ id extra now. embedded (Memory.retry store id extra now);
    dequeue_or_wait = λ w. in_memory (RateLimited.dequeue_or_wait w.0 w.1);
  }

  unfoldable pub router_queue : Queue Router (List Pass) (List Pass)
  unfolding Router.enqueue Router.dequeue Router.dequeue_or_wait Router.pending_count Router.close
      Router.ack Router.nack Router.set_processing Router.requeue Router.retry
  router_queue = record {
    enqueue = Router.enqueue;
    dequeue = Router.dequeue;
    ack = Router.ack store;
    nack = Router.nack store;
    pending_count = Router.pending_count;
    close = Router.close;
    set_processing = Router.set_processing store;
    requeue = Router.requeue store;
    retry = Router.retry store;
    dequeue_or_wait = Router.dequeue_or_wait;
  }
