-- ===== src/Queue/Interface/Polling.antt =====
-- A call of the router's Dequeue or DequeueOrWait takes one job out, or none.
use rjq.Common.{
  ℕ, ◌+◌, Option, none, some, List, [], ◌∷◌, ◌≡◌, refl, subst, All, inl, inr, ltb, length,
  Bool-cases, arith,
}
use rjq.Models.{Job}
use rjq.Queue.Memory
use rjq.Queue.Sorted.{SortedQueue}
use rjq.Queue.Sorted
use rjq.Queue.RateLimited.{RateLimitedQueue, Delivery, delivered, nothing, blocked, holding}
use rjq.Queue.RateLimited
use rjq.Queue.Router.{
  Router, Pass, served, poll, poll_fifo, or_fifo, poll_rate_limited, or_rate_limited,
}
use rjq.Queue.Router
use rjq.Queue.Interface.Channels.{memory_waits}
use rjq.Queue.Interface.Ordered
use rjq.Queue.Interface.Limited.{wait-Counts}
use rjq.Queue.Interface.Promises.{Delivers}

-- The jobs that wait in the three queues.
abbrev pub waiting : Router → ℕ
waiting r = length r.fifo.jobs + length r.priority.jobs + length r.rate_limited.memory.jobs

abbrev Counts : ℕ → Delivery × Router → Type 0
Counts n x = Delivers n x.0 (waiting x.1)

-- In a pass the other goroutines leave the numbers of jobs of the priority queue and of the rate-limited
-- queue as they are.
abbrev pub IsCalm : Pass → Type 0
IsCalm p =
    Ordered.IsCalm p.others
    × ((q : RateLimitedQueue) → length (p.meanwhile q).memory.jobs ≡ length q.memory.jobs)

-- Beside other jobs that stay.
Delivers-beside :
    (k n m : ℕ) (d : Delivery) (n' m' : ℕ)
    → Delivers n d n'
    → m ≡ k + n
    → m' ≡ k + n'
    → Delivers m d m'
Delivers-beside k n m (delivered job) n' m' h e f = omega arith
Delivers-beside k n m nothing n' m' h e f = omega arith
Delivers-beside k n m blocked n' m' h e f = omega arith
Delivers-beside k n m (holding job) n' m' h e f = omega arith

poll_fifo-Counts : (p : Pass) (r : Router) → Counts (waiting r) (poll_fifo p r)
poll_fifo-Counts p r =
    Delivers-beside (length r.priority.jobs + length r.rate_limited.memory.jobs)
      (length r.fifo.jobs) (waiting r) (served (Memory.dequeue_or_wait p.fifo_expired r.fifo).0)
      (length (Memory.dequeue_or_wait p.fifo_expired r.fifo).1.jobs) (waiting (poll_fifo p r).1)
      (memory_waits p.fifo_expired r.fifo) (omega arith) (omega arith)

or_fifo-Counts :
    (p : Pass) (r : Router) (x : Delivery × RateLimitedQueue)
    → Delivers (length r.rate_limited.memory.jobs) x.0 (length x.1.memory.jobs)
    → Counts (waiting r) (or_fifo p r x)
or_fifo-Counts p r (delivered job, q) h = omega (arith, h)
or_fifo-Counts p r (nothing, q) h =
    let t : Router = record r { rate_limited = q } in
    let same : waiting t ≡ waiting r = omega (arith, h) in
    subst (λ n. Counts n (poll_fifo p t)) same (poll_fifo-Counts p t)
or_fifo-Counts p r (blocked, q) h = omega (arith, h)
or_fifo-Counts p r (holding job, q) h = omega (arith, h)

poll_rate_limited-Counts :
    (p : Pass) (r : Router) → IsCalm p → Counts (waiting r) (poll_rate_limited p r)
poll_rate_limited-Counts p r calm =
    elim (Bool-cases (ltb 0 (RateLimited.available_tokens r.rate_limited))) [
      | inl e ↦ rw e (
          or_fifo-Counts p r (RateLimited.dequeue_or_wait p.rate_expired p.sleeps q) (
            subst
              (λ n.
                Delivers n (RateLimited.dequeue_or_wait p.rate_expired p.sleeps q).0
                  (length (RateLimited.dequeue_or_wait p.rate_expired p.sleeps q).1.memory.jobs))
              (calm.1 r.rate_limited) (wait-Counts p.rate_expired p.sleeps q)))
      | inr e ↦ rw e (poll_fifo-Counts p r)
    ]
  where
    q : RateLimitedQueue
    q = p.meanwhile r.rate_limited

or_rate_limited-Counts :
    (p : Pass) (r : Router) (x : Option Job × SortedQueue)
    → IsCalm p
    → Ordered.Pops (length r.priority.jobs) x
    → Counts (waiting r) (or_rate_limited p r x)
or_rate_limited-Counts p r (some job, q) calm h = omega (arith, h)
or_rate_limited-Counts p r (none, q) calm h =
    let t : Router = record r { priority = q } in
    let same : waiting t ≡ waiting r = omega (arith, h) in
    subst (λ n. Counts n (poll_rate_limited p t)) same (poll_rate_limited-Counts p t calm)

poll-Counts : (p : Pass) (r : Router) → IsCalm p → Counts (waiting r) (poll p r)
unfolding poll
poll-Counts p r calm =
    or_rate_limited-Counts p r (Sorted.dequeue_or_wait p.wake p.others r.priority) calm
      (Ordered.wait-Pops p.wake p.others r.priority calm.0)

-- What follows a pass: another one, if it found nothing.
after_poll-Counts :
    (n : ℕ) (more : Router → Delivery × Router) (x : Delivery × Router)
    → Counts n x
    → ((t : Router) → Counts (waiting t) (more t))
    → Counts n (elim x.0 [
      | nothing ↦ more x.1
      | delivered job ↦ (delivered job, x.1)
      | blocked ↦ (blocked, x.1)
      | holding job ↦ (holding job, x.1)
    ])
after_poll-Counts n more (delivered job, t) h k = h
after_poll-Counts n more (nothing, t) h k = subst (λ m. Counts m (more t)) h (k t)
after_poll-Counts n more (blocked, t) h k = h
after_poll-Counts n more (holding job, t) h k = h

pub router_waits :
    (passes : List Pass) (r : Router)
    → All IsCalm passes
    → Counts (waiting r) (Router.dequeue_or_wait passes r)
unfolding Router.dequeue_or_wait
router_waits [] r h = refl
router_waits (p ∷ passes) r h =
    after_poll-Counts (waiting r) (Router.dequeue_or_wait passes) (poll p r) (poll-Counts p r h.0)
      (λ t. router_waits passes t h.1)

pub router_dequeues :
    (passes : List Pass) (r : Router)
    → All IsCalm passes
    → Counts (waiting r) (Router.dequeue passes r)
unfolding Router.dequeue
router_dequeues [] r h = refl
router_dequeues (p ∷ passes) r h =
    after_poll-Counts (waiting r) (Router.dequeue passes) (poll p r) (poll-Counts p r h.0)
      (λ t. router_dequeues passes t h.1)
