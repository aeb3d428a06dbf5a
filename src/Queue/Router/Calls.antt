-- ===== src/Queue/Router/Calls.antt =====
-- What the router's methods do to the three queues.
use rjq.Common.{
  ℕ, suc, ◌<◌, String, Bool, true, false, Option, none, some, List, [], ◌∷◌, ◌++◌, ◌≡◌, refl, inl,
  inr, ltb, length, arith, Bool-cases,
}
use rjq.Common.Monad.{ok, err}
use rjq.Models.{Job, pending}
use rjq.Errors.{Error}
use rjq.Storage.Rows.{Row}
use rjq.Storage.Interface.{Storage}
use rjq.Storage.Contract.{Contract, Stored}
use rjq.Queue.Delivery.Steps.{nack_found}
use rjq.Queue.Sorted
use rjq.Queue.Memory.{MemoryQueue}
use rjq.Queue.Memory
use rjq.Queue.RateLimited.{RateLimitedQueue, Delivery, delivered, nothing, blocked, holding}
use rjq.Queue.RateLimited
use rjq.Queue.Router.{
  Router, Pass, enqueue, served, or_fifo, poll_rate_limited, or_rate_limited, poll, nack,
}

-- A job that the router refuses leaves every queue and the database as they were.
pub enqueue-err : (job : Job) (r r' : Router) (e : Error) → enqueue job r ≡ (err e, r') → r' ≡ r
unfolding enqueue
enqueue-err job r r' e h = ground arith

-- No queue touches the database when a job is enqueued.
pub enqueue-db : (job : Job) (r : Router) → (enqueue job r).1.db ≡ r.db
unfolding enqueue
enqueue-db job r = ground arith

-- Whether a call waits for a token, with a job in hand.
abbrev pub is_holding : Delivery → Bool
is_holding (delivered job) = false
is_holding nothing = false
is_holding blocked = false
is_holding (holding job) = true

-- What one pass of the loop of `Dequeue` hands out.
pub record Serves (p : Pass) (r : Router) (x : Delivery × Router) : Type 0 where
  pub priority_first :
      (job : Job) (rest : List Job)
      → r.priority.jobs ≡ job ∷ rest
      → x ≡ (delivered job, record r { priority = record (r.priority) { jobs = rest } })
  pub no_token : r.rate_limited.tokens ≡ 0 → x.1.rate_limited ≡ r.rate_limited
  pub waits :
      is_holding x.0 ≡ true
      → (0 < r.rate_limited.tokens) × ((p.meanwhile r.rate_limited).tokens ≡ 0)

poll-priority :
    (p : Pass) (r : Router) (job : Job) (rest : List Job)
    → r.priority.jobs ≡ job ∷ rest
    → poll p r ≡ (delivered job, record r { priority = record (r.priority) { jobs = rest } })
unfolding poll
poll-priority p r job rest e = ground arith

poll-no_token :
    (p : Pass) (r : Router) → r.rate_limited.tokens ≡ 0 → (poll p r).1.rate_limited ≡ r.rate_limited
unfolding poll
poll-no_token p r e = ground arith

take_token_brief :
    (job : Job) (sleeps : List ℕ) (q : RateLimitedQueue)
    → 0 < q.tokens
    → is_holding (RateLimited.take_token job sleeps q).0 ≡ false
unfolding RateLimited.take_token
take_token_brief job [] q h = ground arith
take_token_brief job (n ∷ sleeps) q h = ground arith

timed_brief :
    (x : Delivery × RateLimitedQueue)
    → is_holding x.0 ≡ false
    → is_holding (RateLimited.timed x).0 ≡ false
timed_brief (delivered job, q) h = refl
timed_brief (nothing, q) h = refl
timed_brief (blocked, q) h = refl
timed_brief (holding job, q) h = h

spend_brief :
    (sleeps : List ℕ) (q : RateLimitedQueue) (x : Memory.Received × MemoryQueue)
    → 0 < q.tokens
    → is_holding (RateLimited.spend sleeps q x).0 ≡ false
spend_brief sleeps q (Memory.got job, m) h = take_token_brief job sleeps (record q { memory = m }) h
spend_brief sleeps q (Memory.shut, m) h = refl
spend_brief sleeps q (Memory.blocks, m) h = refl

wait_brief :
    (expired : Bool) (sleeps : List ℕ) (q : RateLimitedQueue)
    → 0 < q.tokens
    → is_holding (RateLimited.dequeue_or_wait expired sleeps q).0 ≡ false
unfolding RateLimited.dequeue_or_wait
wait_brief true sleeps q h = refl
wait_brief false sleeps q h =
    timed_brief (RateLimited.dequeue sleeps q)
      (unfold RateLimited.dequeue in spend_brief sleeps q (Memory.receive q.memory) h)

served_brief : (x : Option Job) → is_holding (served x) ≡ false
served_brief none = refl
served_brief (some job) = refl

or_fifo_brief :
    (p : Pass) (r : Router) (x : Delivery × RateLimitedQueue)
    → is_holding x.0 ≡ false
    → is_holding (or_fifo p r x).0 ≡ false
or_fifo_brief p r (delivered job, q) h = refl
or_fifo_brief p r (nothing, q) h = served_brief _
or_fifo_brief p r (blocked, q) h = refl
or_fifo_brief p r (holding job, q) h = h

-- A pass waits for a token only if one was there and is gone.
abbrev Taken : Pass → Router → Delivery × Router → Type 0
Taken p r x =
    is_holding x.0 ≡ true → (0 < r.rate_limited.tokens) × ((p.meanwhile r.rate_limited).tokens ≡ 0)

brief-Taken : (p : Pass) (r : Router) (x : Delivery × Router) → is_holding x.0 ≡ false → Taken p r x
brief-Taken p r x h t = cc (h, t)

poll_rate_limited-Taken : (p : Pass) (r : Router) → Taken p r (poll_rate_limited p r)
unfolding RateLimited.available_tokens
poll_rate_limited-Taken p r = elim (Bool-cases (ltb 0 r.rate_limited.tokens)) [
  | inr e ↦ brief-Taken p r (poll_rate_limited p r) (simp e (served_brief _))
  | inl e ↦ elim (Bool-cases (ltb 0 q.tokens)) [
    | inr f ↦ λ _. (ground arith, ground arith)
    | inl f ↦
        brief-Taken p r (poll_rate_limited p r)
          (simp e (or_fifo_brief p r _ (wait_brief p.rate_expired p.sleeps q (ground arith))))
  ]
]
  where
    q : RateLimitedQueue
    q = p.meanwhile r.rate_limited

poll-Taken : (p : Pass) (r : Router) → Taken p r (poll p r)
unfolding poll
poll-Taken p r = found (Sorted.dequeue_or_wait p.wake p.others r.priority)
  where
    found : (x : Option Job × Sorted.SortedQueue) → Taken p r (or_rate_limited p r x)
    found (some job, q) = brief-Taken p r (or_rate_limited p r (some job, q)) refl
    found (none, q) = poll_rate_limited-Taken p (record r { priority = q })

-- One pass of the router's loop, with whatever other goroutines do to the rate-limited queue between
-- the look at its tokens and its call. A job in the priority queue is handed out before any other,
-- and then no other queue changes. With no token the rate-limited queue is left alone. The pass ends
-- with a job in hand that waits for a token only if a token was there at the look and none at the
-- call.
pub poll-Serves : (p : Pass) (r : Router) → Serves p r (poll p r)
poll-Serves p r = record {
  priority_first = poll-priority p r;
  no_token = poll-no_token p r;
  waits = poll-Taken p r;
}

module _ (store : Storage) (c : Contract store) where
  -- `Nack` of a stored job with retries left puts the job in the FIFO queue, if that has room,
  -- whatever the queue of the job's type; the other two queues are left as they were.
  pub nack_to_fifo :
      (id : String) (now : ℕ) (row : Row) (j : Job) (r : Router)
      → Stored c.scan id row j r.db
      → suc j.retry_count < j.max_retries
      → r.fifo.closed ≡ false
      → length r.fifo.jobs < r.fifo.capacity
      → let (x, r') = nack store id now r in
        (x ≡ ok tt)
        × (r'.fifo.jobs
            ≡ r.fifo.jobs ++ (record j { status = pending; retry_count = suc j.retry_count } ∷ []))
        × (r'.priority ≡ r.priority)
        × (r'.rate_limited ≡ r.rate_limited)
  unfolding nack Memory.enqueue
  nack_to_fifo id now row j r h left open' room =
      rw (nack_found store c Memory.enqueue id now row j (record { db = r.db; queue = r.fifo }) h)
        (ground arith)
