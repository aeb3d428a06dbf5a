-- ===== src/Queue/RateLimited/Tokens.antt =====
-- The token bucket of `RateLimitedQueue` over any history of refill ticks and dequeues.
use rjq.Common.{ℕ, zero, suc, ◌+◌, ◌≤◌, ◌<◌, Bool, true, false, List, [], ◌∷◌, ◌≡◌, arith}
use rjq.Models.{Job}
use rjq.Queue.Memory.{MemoryQueue, receive, Received, got, shut, blocks}
use rjq.Queue.RateLimited.{
  RateLimitedQueue, Delivery, delivered, nothing, blocked, holding, refill, refills, take_token,
  spend, timed, dequeue, dequeue_or_wait,
}

abbrev pub sum : List ℕ → ℕ
sum [] = 0
sum (n ∷ ns) = n + sum ns

-- How many jobs a call handed out.
abbrev pub handed : Delivery → ℕ
handed (delivered job) = 1
handed nothing = 0
handed blocked = 0
handed (holding job) = 0

-- From `q` to `q'` at most `n` tokens more came in than were spent or are still there, the bucket
-- did not pass its size, and what is fixed stayed.
abbrev pub Bounded : ℕ → ℕ → RateLimitedQueue → RateLimitedQueue → Type 0
Bounded n spent q q' =
    (q'.tokens + spent ≤ q.tokens + n)
    × (q.tokens ≤ q.burst → q'.tokens ≤ q'.burst)
    × (q'.burst ≡ q.burst)

pub refill-Bounded : (q : RateLimitedQueue) → Bounded 1 0 q (refill q)
unfolding refill
refill-Bounded q = ground arith

refills-Bounded : (n : ℕ) (q : RateLimitedQueue) → Bounded n 0 q (refills n q)
unfolding refills
refills-Bounded zero q = ground arith
refills-Bounded (suc n) q = ground (arith, refill-Bounded q, refills-Bounded n (refill q))

pub take_token-Bounded :
    (job : Job) (sleeps : List ℕ) (q : RateLimitedQueue)
    → let (d, q') = take_token job sleeps q in Bounded (sum sleeps) (handed d) q q'
unfolding take_token
take_token-Bounded job [] q = ground arith
take_token-Bounded job (n ∷ sleeps) q =
    ground (arith, refills-Bounded n q, take_token-Bounded job sleeps (refills n q))

pub dequeue-Bounded :
    (sleeps : List ℕ) (q : RateLimitedQueue)
    → let (d, q') = dequeue sleeps q in Bounded (sum sleeps) (handed d) q q'
unfolding dequeue
dequeue-Bounded sleeps q = spent (receive q.memory)
  where
    spent :
        (r : Received × MemoryQueue)
        → let (d, q') = spend sleeps q r in Bounded (sum sleeps) (handed d) q q'
    spent (got job, m) = take_token-Bounded job sleeps (record q { memory = m })
    spent (shut, m) = ground arith
    spent (blocks, m) = ground arith

pub data Call : Type 0 where
  tick : Call
  dequeues : (sleeps : List ℕ) → Call
  dequeues_or_waits : (expired : Bool) (sleeps : List ℕ) → Call

-- The ticks that fall into a call.
abbrev pub ticks_of : Call → ℕ
ticks_of tick = 1
ticks_of (dequeues sleeps) = sum sleeps
ticks_of (dequeues_or_waits expired sleeps) = sum sleeps

pub step : Call → RateLimitedQueue → Delivery × RateLimitedQueue
unfolding dequeue dequeue_or_wait refill
step tick q = (nothing, refill q)
step (dequeues sleeps) q = dequeue sleeps q
step (dequeues_or_waits expired sleeps) q = dequeue_or_wait expired sleeps q

-- The jobs handed out by a history of calls, and the queue after it.
unfoldable pub run : List Call → RateLimitedQueue → ℕ × RateLimitedQueue
unfolding step
run [] q = (0, q)
run (c ∷ cs) q = let (d, q') = step c q in let (n, q'') = run cs q' in (handed d + n, q'')

abbrev pub all_ticks : List Call → ℕ
all_ticks [] = 0
all_ticks (c ∷ cs) = ticks_of c + all_ticks cs

timed-Bounded :
    (n : ℕ) (q : RateLimitedQueue) (x : Delivery × RateLimitedQueue)
    → Bounded n (handed x.0) q x.1
    → Bounded n (handed (timed x).0) q (timed x).1
timed-Bounded n q (delivered job, q') h = h
timed-Bounded n q (nothing, q') h = h
timed-Bounded n q (blocked, q') h = h
timed-Bounded n q (holding job, q') h = h

pub wait-Bounded :
    (expired : Bool) (sleeps : List ℕ) (q : RateLimitedQueue)
    → let (d, q') = dequeue_or_wait expired sleeps q in Bounded (sum sleeps) (handed d) q q'
unfolding dequeue_or_wait
wait-Bounded true sleeps q = ground arith
wait-Bounded false sleeps q =
    timed-Bounded (sum sleeps) q (dequeue sleeps q) (dequeue-Bounded sleeps q)

step-Bounded :
    (c : Call) (q : RateLimitedQueue)
    → let (d, q') = step c q in Bounded (ticks_of c) (handed d) q q'
unfolding step
step-Bounded tick q = refill-Bounded q
step-Bounded (dequeues sleeps) q = dequeue-Bounded sleeps q
step-Bounded (dequeues_or_waits expired sleeps) q = wait-Bounded expired sleeps q

-- Over any history the jobs handed out, with the tokens left, are at most the tokens at its start
-- and the refill ticks in it; and a bucket that was within its size stays within it.
pub run_bounded :
    (cs : List Call) (q : RateLimitedQueue)
    → q.tokens ≤ q.burst
    → let (n, q') = run cs q in
      (q'.tokens + n ≤ q.tokens + all_ticks cs) × (q'.tokens ≤ q'.burst) × (q'.burst ≡ q.burst)
unfolding run
run_bounded [] q h = ground arith
run_bounded (c ∷ cs) q h =
    let (k, fits, b) = step-Bounded c q in ground (arith, run_bounded cs (step c q).1 (fits h))

-- Refills of a bucket that is not stopped and has room for a token.
refills-tokens :
    (n : ℕ) (q : RateLimitedQueue)
    → q.stopped ≡ false
    → 0 < q.burst
    → (q.tokens ≤ (refills n q).tokens)
      × ((refills n q).stopped ≡ false)
      × ((refills n q).burst ≡ q.burst)
      × (0 < q.tokens + n → 0 < (refills n q).tokens)
unfolding refills
refills-tokens zero q s b = ground arith
refills-tokens (suc n) q s b = ground (arith, refills-tokens n (refill q))

abbrev pub Delivers : Job → Delivery × RateLimitedQueue → Type 0
Delivers job (d, q) = d ≡ delivered job

-- A job that waits for a token is handed out as soon as one tick falls into the wait, in a bucket
-- that has room for a token and whose refill has not been stopped.
take_token-Delivers :
    (job : Job) (sleeps : List ℕ) (q : RateLimitedQueue)
    → q.stopped ≡ false
    → 0 < q.burst
    → 0 < q.tokens + sum sleeps
    → Delivers job (take_token job sleeps q)
unfolding take_token
take_token-Delivers job [] q s b h = ground arith
take_token-Delivers job (n ∷ sleeps) q s b h =
    ground (arith, refills-tokens n q s b, take_token-Delivers job sleeps (refills n q))
