-- ===== src/Queue/RateLimited.antt =====
-- internal/queue/rate_limited.go: a FIFO queue behind a token bucket.
pub mod Tokens
pub mod Drained
pub mod Rates
use rjq.Common.{
  ℕ, zero, suc, ◌-◌, ◌/◌, Bool, true, false, Option, none, some, List, [], ◌∷◌, if◌then◌else◌, ltb,
  ◌==◌,
}
use rjq.Common.Monad.{Method}
use rjq.Models.{Job}
use rjq.Errors.{Error}
use rjq.Queue.Memory.{MemoryQueue, Received, got, shut, blocks, new_memory_queue, receive}
use rjq.Queue.Memory

pub record RateLimitedQueue : Type 0 where
  pub memory : MemoryQueue
  pub rate : ℕ
  pub burst : ℕ
  pub tokens : ℕ
  pub stopped : Bool  -- `stopRefill` is closed

abbrev pub minute : ℕ
minute = 60_000_000_000

-- The ticker's interval. Division by a zero rate panics, and so does a ticker whose interval is 0.
unfoldable pub refill_interval : ℕ → Option ℕ
refill_interval rate =
    if rate == 0 then none else if minute / rate == 0 then none else some (minute / rate)

-- `NewRateLimitedQueue`, with `startRefill`; `none` is a panic.
abbrev pub with_interval : ℕ → ℕ → ℕ → Option ℕ → Option RateLimitedQueue
with_interval buffer_size rate_per_minute burst none = none
with_interval buffer_size rate_per_minute burst (some interval) = some (record {
  memory = new_memory_queue buffer_size;
  rate = rate_per_minute;
  burst = burst;
  tokens = burst;
  stopped = false;
})

unfoldable pub new_rate_limited_queue : ℕ → ℕ → ℕ → Option RateLimitedQueue
unfolding refill_interval
new_rate_limited_queue buffer_size rate_per_minute burst =
    with_interval buffer_size rate_per_minute burst (refill_interval rate_per_minute)

-- One tick of the refill goroutine, which ends when `stopRefill` is closed.
unfoldable pub refill : RateLimitedQueue → RateLimitedQueue
refill q =
    if q.stopped then q else if ltb q.tokens q.burst then record q { tokens = suc q.tokens } else q

unfoldable pub refills : ℕ → RateLimitedQueue → RateLimitedQueue
unfolding refill
refills zero q = q
refills (suc n) q = refills n (refill q)

-- What a call of `Dequeue` or `DequeueOrWait` has come to: it returned, with a job or nil, or it
-- blocks, on the channel or with a job in hand that waits for a token.
pub data Delivery : Type 0 where
  delivered : Job → Delivery
  nothing blocked : Delivery
  holding : Job → Delivery

-- The loop that waits for a token. Each entry of the list is one sleep of 100 ms, with the number
-- of ticks that fall into it; where the list ends, the call still waits.
unfoldable pub take_token : Job → List ℕ → RateLimitedQueue → Delivery × RateLimitedQueue
unfolding refills
take_token job [] q =
    if ltb 0 q.tokens then (delivered job, record q { tokens = q.tokens - 1 }) else (holding job, q)
take_token job (ticks ∷ sleeps) q =
    let rest = take_token job sleeps (refills ticks q) in
    if ltb 0 q.tokens then (delivered job, record q { tokens = q.tokens - 1 }) else rest

abbrev pub spend : List ℕ → RateLimitedQueue → Received × MemoryQueue → Delivery × RateLimitedQueue
spend sleeps q (got job, m) = take_token job sleeps (record q { memory = m })
spend sleeps q (shut, m) = (nothing, record q { memory = m })
spend sleeps q (blocks, m) = (blocked, record q { memory = m })

unfoldable pub dequeue : List ℕ → RateLimitedQueue → Delivery × RateLimitedQueue
unfolding take_token receive
dequeue sleeps q = spend sleeps q (receive q.memory)

-- A wait for the channel that ends by its timer returns nil.
abbrev pub timed : Delivery × RateLimitedQueue → Delivery × RateLimitedQueue
timed (delivered job, q) = (delivered job, q)
timed (nothing, q) = (nothing, q)
timed (blocked, q) = (nothing, q)
timed (holding job, q) = (holding job, q)

unfoldable pub dequeue_or_wait : Bool → List ℕ → RateLimitedQueue → Delivery × RateLimitedQueue
unfolding dequeue
dequeue_or_wait expired sleeps q = if expired then (nothing, q) else timed (dequeue sleeps q)

unfoldable pub available_tokens : RateLimitedQueue → ℕ
available_tokens q = q.tokens

-- A second close of `stopRefill` panics.
unfoldable pub close : RateLimitedQueue → Option RateLimitedQueue
unfolding Memory.close
close q =
    if q.stopped then none else some (record q { stopped = true; memory = Memory.close q.memory })

-- The methods of the embedded `MemoryQueue` run on the field.
abbrev pub promoted : {A : Type 0} → Method MemoryQueue Error A → Method RateLimitedQueue Error A
promoted m q = let (r, memory) = m q.memory in (r, record q { memory = memory })
