-- ===== src/Queue/RateLimited/Drained.antt =====
-- An empty bucket that is refilled no more hands out nothing, and stays empty.
use rjq.Common.{ℕ, zero, suc, Bool, true, false, List, [], ◌∷◌, ◌≡◌, refl, ltb, arith}
use rjq.Models.{Job}
use rjq.Queue.Memory.{MemoryQueue, receive}
use rjq.Queue.Memory
use rjq.Queue.RateLimited.{
  RateLimitedQueue, refill, refills, Delivery, delivered, nothing, blocked, holding, take_token,
  spend, dequeue, timed, dequeue_or_wait,
}

abbrev pub IsDrained : RateLimitedQueue → Type 0
IsDrained q = (q.stopped ≡ true) × (q.tokens ≡ 0)

pub refill-IsDrained : (q : RateLimitedQueue) → IsDrained q → IsDrained (refill q)
unfolding refill
refill-IsDrained q d = ground (arith, d.0)

refills-IsDrained : (n : ℕ) (q : RateLimitedQueue) → IsDrained q → IsDrained (refills n q)
unfolding refills
refills-IsDrained zero q d = d
refills-IsDrained (suc n) q d = refills-IsDrained n (refill q) (refill-IsDrained q d)

pub take_token-IsDrained :
    (job : Job) (sleeps : List ℕ) (q : RateLimitedQueue)
    → IsDrained q
    → ((take_token job sleeps q).0 ≡ holding job) × IsDrained (take_token job sleeps q).1
unfolding take_token
take_token-IsDrained job [] q d =
    let none_left : ltb 0 q.tokens ≡ false = ground (arith, d.1) in rw none_left (refl, d)
take_token-IsDrained job (n ∷ sleeps) q d =
    let none_left : ltb 0 q.tokens ≡ false = ground (arith, d.1) in
    rw none_left (take_token-IsDrained job sleeps (refills n q) (refills-IsDrained n q d))

spend-IsDrained :
    (sleeps : List ℕ) (q : RateLimitedQueue) (x : Memory.Received × MemoryQueue)
    → IsDrained q
    → IsDrained (spend sleeps q x).1
spend-IsDrained sleeps q (Memory.got job, m) d =
    (take_token-IsDrained job sleeps (record q { memory = m }) d).1
spend-IsDrained sleeps q (Memory.shut, m) d = d
spend-IsDrained sleeps q (Memory.blocks, m) d = d

pub wait-IsDrained :
    (expired : Bool) (sleeps : List ℕ) (q : RateLimitedQueue)
    → IsDrained q
    → IsDrained (dequeue_or_wait expired sleeps q).1
unfolding dequeue_or_wait dequeue
wait-IsDrained true sleeps q d = d
wait-IsDrained false sleeps q d =
    go (spend sleeps q (receive q.memory)) (spend-IsDrained sleeps q (receive q.memory) d)
  where
    go : (x : Delivery × RateLimitedQueue) → IsDrained x.1 → IsDrained (timed x).1
    go (delivered job, r) h = h
    go (nothing, r) h = h
    go (blocked, r) h = h
    go (holding job, r) h = h
