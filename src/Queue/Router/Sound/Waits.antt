-- ===== src/Queue/Router/Sound/Waits.antt =====
-- The waits on the single queues keep them within their bounds, and sorted.
use rjq.Common.{
  ℕ, zero, suc, ◌≤◌, Bool, true, false, Option, none, some, List, [], ◌∷◌, ◌≡◌, refl, ap, inl, inr,
  length, arith, Bool-cases,
}
use rjq.Models.{Job}
use rjq.Queue.Sorted.{SortedQueue, Wake, signalled, closing, elapsed}
use rjq.Queue.Sorted
use rjq.Queue.Sorted.Order.{IsSorted}
use rjq.Queue.Memory.{MemoryQueue, Received, got, shut, blocks, receive_from}
use rjq.Queue.Memory
use rjq.Queue.RateLimited.{RateLimitedQueue, Delivery, delivered, nothing, blocked, holding}
use rjq.Queue.RateLimited
use rjq.Queue.RateLimited.Drained.{IsDrained}
use rjq.Queue.Router.{Pass}
use rjq.Queue.Router.Sound.{Fits, SortedJobs}

-- A pass in which what other goroutines do keeps the priority queue sorted, and the rate-limited queue
-- within its bounds and, once it is drained, drained.
pub record Considerate (p : Pass) : Type 0 where
  pub sorts : (q : SortedQueue) → SortedJobs q → SortedJobs (p.others q)
  pub fits : (q : RateLimitedQueue) → Fits q.memory → Fits (p.meanwhile q).memory
  pub within_burst :
      (q : RateLimitedQueue) → q.tokens ≤ q.burst → (p.meanwhile q).tokens ≤ (p.meanwhile q).burst
  pub drains : (q : RateLimitedQueue) → IsDrained q → IsDrained (p.meanwhile q)

pop-SortedJobs : (q : SortedQueue) → SortedJobs q → SortedJobs (Sorted.pop_locked q).1
unfolding Sorted.pop_locked
pop-SortedJobs q s = popped q.jobs s
  where
    popped : (jobs : List Job) → IsSorted jobs → SortedJobs (Sorted.pop_jobs jobs q).1
    popped [] h = s
    popped (job ∷ jobs) h = h.1

pub wait-SortedJobs :
    (w : Wake) (others : SortedQueue → SortedQueue) (q : SortedQueue)
    → ((r : SortedQueue) → SortedJobs r → SortedJobs (others r))
    → SortedJobs q
    → SortedJobs (Sorted.dequeue_or_wait w others q).1
unfolding Sorted.dequeue_or_wait
wait-SortedJobs w others q h s = more (Sorted.pop_locked q) (pop-SortedJobs q s)
  where
    woken : (v : Wake) (r : SortedQueue) → SortedJobs r → SortedJobs (Sorted.wake_up v r).1
    woken signalled r k = pop-SortedJobs (record r { signal = false }) k
    woken closing r k = k
    woken elapsed r k = k

    more :
        (x : Option Job × SortedQueue) → SortedJobs x.1 → SortedJobs (Sorted.wait_more w others x).1
    more (some job, r) k = k
    more (none, r) k = elim (Bool-cases r.closed) [
      | inl e ↦ simp e k
      | inr e ↦ simp e (woken w (others r) (h r k))
    ]

receive-Fits : (q : MemoryQueue) → Fits q → Fits (Memory.receive q).1
unfolding Memory.receive
receive-Fits q h = received q.jobs refl
  where
    received : (jobs : List Job) → q.jobs ≡ jobs → Fits (receive_from jobs q).1
    received [] e = ground arith
    received (job ∷ rest) e = let l = ap (λ (l : List Job). length l) e in omega (arith, l)

pub memory-Fits :
    (expired : Bool) (q : MemoryQueue) → Fits q → Fits (Memory.dequeue_or_wait expired q).1
unfolding Memory.dequeue_or_wait
memory-Fits true q h = h
memory-Fits false q h = received (Memory.receive q) (receive-Fits q h)
  where
    received : (x : Received × MemoryQueue) → Fits x.1 → Fits (Memory.received x).1
    received (got job, m) k = k
    received (shut, m) k = k
    received (blocks, m) k = k

refills-memory : (n : ℕ) (q : RateLimitedQueue) → (RateLimited.refills n q).memory ≡ q.memory
unfolding RateLimited.refills RateLimited.refill
refills-memory zero q = refl
refills-memory (suc n) q = ground (arith, refills-memory n (RateLimited.refill q))

take_token-memory :
    (job : Job) (sleeps : List ℕ) (q : RateLimitedQueue)
    → (RateLimited.take_token job sleeps q).1.memory ≡ q.memory
unfolding RateLimited.take_token
take_token-memory job [] q = ground arith
take_token-memory job (n ∷ sleeps) q =
    ground (arith, take_token-memory job sleeps (RateLimited.refills n q), refills-memory n q)

pub rate_limited-Fits :
    (expired : Bool) (sleeps : List ℕ) (q : RateLimitedQueue)
    → Fits q.memory
    → Fits (RateLimited.dequeue_or_wait expired sleeps q).1.memory
unfolding RateLimited.dequeue_or_wait RateLimited.dequeue
rate_limited-Fits true sleeps q h = h
rate_limited-Fits false sleeps q h =
    timed (RateLimited.dequeue sleeps q) (spent (Memory.receive q.memory) (receive-Fits q.memory h))
  where
    timed :
        (x : Delivery × RateLimitedQueue) → Fits x.1.memory → Fits (RateLimited.timed x).1.memory
    timed (delivered job, r) k = k
    timed (nothing, r) k = k
    timed (blocked, r) k = k
    timed (holding job, r) k = k

    spent : (x : Received × MemoryQueue) → Fits x.1 → Fits (RateLimited.spend sleeps q x).1.memory
    spent (got job, m) k = rw (take_token-memory job sleeps (record q { memory = m })) k
    spent (shut, m) k = k
    spent (blocks, m) k = k
