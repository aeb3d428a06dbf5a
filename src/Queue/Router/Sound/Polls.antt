-- ===== src/Queue/Router/Sound/Polls.antt =====
-- The router's methods in memory keep the queues sound: `Enqueue`, the polls, and `Close`.
use rjq.Common.{
  ◌≤◌, true, ◌∙◌, Option, none, some, List, [], ◌∷◌, ◌≡◌, refl, sym, subst, inl, inr, ltb, All,
  str_eq, arith, Bool-cases,
}
use rjq.Models.{Job, queue_type_priority, queue_type_rate_limited}
use rjq.Queue.Sorted.{SortedQueue}
use rjq.Queue.Sorted
use rjq.Queue.Memory
use rjq.Queue.RateLimited.{RateLimitedQueue, Delivery, delivered, nothing, blocked, holding}
use rjq.Queue.RateLimited
use rjq.Queue.RateLimited.Tokens.{wait-Bounded, refill-Bounded, take_token-Bounded}
use rjq.Queue.RateLimited.Drained.{
  IsDrained, wait-IsDrained, refill-IsDrained, take_token-IsDrained,
}
use rjq.Queue.Router.{Router, Pass, poll_fifo, or_fifo, poll_rate_limited, or_rate_limited}
use rjq.Queue.Router
use rjq.Queue.Router.Sound.{
  Fits, enqueue-Fits, enqueue-SortedJobs, Carries, Carries-refl, Carries-trans, Extends,
  Extends-refl,
}
use rjq.Queue.Router.Sound.Waits.{Considerate, wait-SortedJobs, memory-Fits, rate_limited-Fits}

pub enqueue-Carries : (job : Job) (r : Router) → Carries r (Router.enqueue job r).1
unfolding Router.enqueue
enqueue-Carries job r = elim (Bool-cases (str_eq job.queue_type queue_type_priority)) [
  | inl e ↦ simp e (record {
    rows = Extends-refl r.db;
    sound = λ p. record {
      fifo_fits = p.fifo_fits;
      sorted = enqueue-SortedJobs job r.priority p.sorted;
      rate_limited_fits = p.rate_limited_fits;
      within_burst = p.within_burst;
    };
    drained = λ d. d;
  })
  | inr e ↦ elim (Bool-cases (str_eq job.queue_type queue_type_rate_limited)) [
    | inl f ↦
        simp (e, f)
          (record {
            rows = Extends-refl r.db;
            sound = λ p. record {
              fifo_fits = p.fifo_fits;
              sorted = p.sorted;
              rate_limited_fits = enqueue-Fits job r.rate_limited.memory p.rate_limited_fits;
              within_burst = p.within_burst;
            };
            drained = λ d. d;
          })
    | inr f ↦
        simp (e, f)
          (record {
            rows = Extends-refl r.db;
            sound = λ p. record {
              fifo_fits = enqueue-Fits job r.fifo p.fifo_fits;
              sorted = p.sorted;
              rate_limited_fits = p.rate_limited_fits;
              within_burst = p.within_burst;
            };
            drained = λ d. d;
          })
  ]
]

poll_fifo-Carries : (p : Pass) (r : Router) → Carries r (poll_fifo p r).1
poll_fifo-Carries p r = record {
  rows = Extends-refl r.db;
  sound = λ s. record {
    fifo_fits = memory-Fits p.fifo_expired r.fifo s.fifo_fits;
    sorted = s.sorted;
    rate_limited_fits = s.rate_limited_fits;
    within_burst = s.within_burst;
  };
  drained = λ d. d;
}

take_token-memory :
    (job : Job) (q : RateLimitedQueue) → (RateLimited.take_token job [] q).1.memory ≡ q.memory
unfolding RateLimited.take_token
take_token-memory job q = ground arith

-- The router with another rate-limited queue.
rate_limited-Carries :
    (r : Router) (q : RateLimitedQueue)
    → (Fits r.rate_limited.memory → Fits q.memory)
    → (r.rate_limited.tokens ≤ r.rate_limited.burst → q.tokens ≤ q.burst)
    → (IsDrained r.rate_limited → IsDrained q)
    → Carries r (record r { rate_limited = q })
rate_limited-Carries r q h k l = record {
  rows = Extends-refl r.db;
  sound = λ s. record {
    fifo_fits = s.fifo_fits;
    sorted = s.sorted;
    rate_limited_fits = h s.rate_limited_fits;
    within_burst = k s.within_burst;
  };
  drained = l;
}

or_fifo-Carries :
    (p : Pass) (r : Router) (x : Delivery × RateLimitedQueue)
    → Carries r (record r { rate_limited = x.1 })
    → Carries r (or_fifo p r x).1
or_fifo-Carries p r (delivered job, q) h = h
or_fifo-Carries p r (nothing, q) h =
    Carries-trans r (record r { rate_limited = q }) _ h
      (poll_fifo-Carries p (record r { rate_limited = q }))
or_fifo-Carries p r (blocked, q) h = h
or_fifo-Carries p r (holding job, q) h = h

-- The call of the rate-limited queue, with that of the FIFO queue where it finds nothing.
pub asked-Carries :
    (p : Pass) (r : Router)
    → Carries r (or_fifo p r (RateLimited.dequeue_or_wait p.rate_expired p.sleeps r.rate_limited)).1
asked-Carries p r =
    let x = RateLimited.dequeue_or_wait p.rate_expired p.sleeps r.rate_limited in
    or_fifo-Carries p r x (
      rate_limited-Carries r x.1 (rate_limited-Fits p.rate_expired p.sleeps r.rate_limited)
        (wait-Bounded p.rate_expired p.sleeps r.rate_limited).1
        (wait-IsDrained p.rate_expired p.sleeps r.rate_limited))

-- The queue that is asked stands in the place of the one before.
or_fifo-same :
    (p : Pass) (r : Router) (q : RateLimitedQueue) (x : Delivery × RateLimitedQueue)
    → or_fifo p (record r { rate_limited = q }) x ≡ or_fifo p r x
or_fifo-same p r q (delivered job, t) = refl
or_fifo-same p r q (nothing, t) = refl
or_fifo-same p r q (blocked, t) = refl
or_fifo-same p r q (holding job, t) = refl

poll_rate_limited-Carries :
    (p : Pass) (r : Router) → Considerate p → Carries r (poll_rate_limited p r).1
poll_rate_limited-Carries p r c =
    elim (Bool-cases (ltb 0 (RateLimited.available_tokens r.rate_limited))) [
      | inr e ↦ simp e (poll_fifo-Carries p r)
      | inl e ↦ simp e (
          Carries-trans r t _
            (rate_limited-Carries r q (c.fits r.rate_limited) (c.within_burst r.rate_limited)
              (c.drains r.rate_limited))
            (subst (λ (x : Delivery × Router). Carries t x.1)
              (or_fifo-same p r q (RateLimited.dequeue_or_wait p.rate_expired p.sleeps q))
              (asked-Carries p t)))
    ]
  where
    q : RateLimitedQueue
    q = p.meanwhile r.rate_limited

    t : Router
    t = record r { rate_limited = q }

-- The wait for the priority queue.
pub priority-Carries :
    (p : Pass) (r : Router)
    → Considerate p
    → Carries r (record r { priority = (Sorted.dequeue_or_wait p.wake p.others r.priority).1 })
priority-Carries p r c = record {
  rows = Extends-refl r.db;
  sound = λ s. record {
    fifo_fits = s.fifo_fits;
    sorted = wait-SortedJobs p.wake p.others r.priority c.sorts s.sorted;
    rate_limited_fits = s.rate_limited_fits;
    within_burst = s.within_burst;
  };
  drained = λ d. d;
}

-- The taking of a token.
pub take_token-Carries :
    (job : Job) (r : Router)
    → Carries r (record r { rate_limited = (RateLimited.take_token job [] r.rate_limited).1 })
take_token-Carries job r =
    rate_limited-Carries r (RateLimited.take_token job [] r.rate_limited).1
      (subst Fits (sym (take_token-memory job r.rate_limited)))
      (take_token-Bounded job [] r.rate_limited).1
      (λ d. (take_token-IsDrained job [] r.rate_limited d).1)

pub poll-Carries : (p : Pass) (r : Router) → Considerate p → Carries r (Router.poll p r).1
unfolding Router.poll
poll-Carries p r c =
    after (Sorted.dequeue_or_wait p.wake p.others r.priority) (priority-Carries p r c)
  where
    after :
        (x : Option Job × SortedQueue)
        → Carries r (record r { priority = x.1 })
        → Carries r (or_rate_limited p r x).1
    after (some job, q) h = h
    after (none, q) h =
        Carries-trans r (record r { priority = q }) _ h
          (poll_rate_limited-Carries p (record r { priority = q }) c)

pub dequeue-Carries :
    (passes : List Pass) (r : Router)
    → All Considerate passes
    → Carries r (Router.dequeue_or_wait passes r).1
unfolding Router.dequeue_or_wait
dequeue-Carries [] r c = Carries-refl r
dequeue-Carries (p ∷ passes) r c =
    go (Router.poll p r) (poll-Carries p r c.0) λ s. dequeue-Carries passes s c.1
  where
    go :
        (x : Delivery × Router)
        → Carries r x.1
        → ((s : Router) → Carries s (Router.dequeue_or_wait passes s).1)
        → let (d, s) = x in
          Carries r
            (elim d as (λ _. Delivery × Router) [
              | nothing ↦ Router.dequeue_or_wait passes s
              | delivered job ↦ (delivered job, s)
              | blocked ↦ (blocked, s)
              | holding job ↦ (holding job, s)
            ]).1
    go (delivered job, s) h k = h
    go (nothing, s) h k = Carries-trans r s _ h (k s)
    go (blocked, s) h k = h
    go (holding job, s) h k = h

-- A tick of the bucket.
pub refill-Carries :
    (r : Router) → Carries r (record r { rate_limited = RateLimited.refill r.rate_limited })
unfolding RateLimited.refill
refill-Carries r =
    rate_limited-Carries r (RateLimited.refill r.rate_limited) (λ f. ground arith)
      (refill-Bounded r.rate_limited).1 (refill-IsDrained r.rate_limited)

close-same :
    (r s : Router)
    → Router.close r ≡ some s
    → (s.db ≡ r.db)
      × (s.fifo.jobs ≡ r.fifo.jobs)
      × (s.fifo.capacity ≡ r.fifo.capacity)
      × (s.priority.jobs ≡ r.priority.jobs)
      × (s.rate_limited.memory.jobs ≡ r.rate_limited.memory.jobs)
      × (s.rate_limited.memory.capacity ≡ r.rate_limited.memory.capacity)
      × (s.rate_limited.tokens ≡ r.rate_limited.tokens)
      × (s.rate_limited.burst ≡ r.rate_limited.burst)
      × (s.rate_limited.stopped ≡ true)
unfolding Router.close Memory.close Sorted.close RateLimited.close
close-same r s e = ground arith

-- `Close` keeps what the queues hold.
pub close-Carries : (r s : Router) → Router.close r ≡ some s → Carries r s
close-Carries r s e =
    let same = close-same r s e in
    record {
      rows = subst (λ db. Extends r.db db) (sym same.0) (Extends-refl r.db);
      sound = λ p. record {
        fifo_fits = rw (same.1, same.2) p.fifo_fits;
        sorted = rw same.3 p.sorted;
        rate_limited_fits = rw (same.4, same.5) p.rate_limited_fits;
        within_burst = rw (same.6, same.7) p.within_burst;
      };
      drained = λ d. (same.8, same.6 ∙ d.1);
    }
