-- ===== src/Queue/Router/Sound.antt =====
-- What every method of the router keeps: the order and the bounds of the three queues, and the rows.
pub mod Methods
pub mod Waits
pub mod Polls
use mathlib.Core.List.{append-nil, append_assoc}
use rjq.Common.{
  ◌+◌, ◌≤◌, String, List, [], ◌∷◌, ◌++◌, ◌≡◌, sym, ap, ◌∙◌, length, length-append, arith,
}
use rjq.Common.Monad.{Result, ok, err, Method, ◌>>=◌, follow}
use rjq.Models.{Job}
use rjq.Errors.{Error, wrapping, rewrap}
use rjq.Storage.Rows.Laws.{ids}
use rjq.Storage.Database.{Database}
use rjq.Queue.Delivery.{Backed}
use rjq.Queue.Delivery.Safe.{IsSafe}
use rjq.Queue.Sorted.{SortedQueue}
use rjq.Queue.Sorted
use rjq.Queue.Sorted.Order.{IsSorted, insert_locked-IsSorted}
use rjq.Queue.Memory.{MemoryQueue}
use rjq.Queue.Memory
use rjq.Queue.RateLimited.Drained.{IsDrained}
use rjq.Queue.Router.{Router, on_fifo, on_priority, on_rate_limited}
use rjq.Queue.Router

abbrev pub Fits : MemoryQueue → Type 0
Fits q = length q.jobs ≤ q.capacity

abbrev pub SortedJobs : SortedQueue → Type 0
SortedJobs q = IsSorted q.jobs

pub record IsSound (r : Router) : Type 0 where
  pub fifo_fits : Fits r.fifo
  pub sorted : SortedJobs r.priority
  pub rate_limited_fits : Fits r.rate_limited.memory
  pub within_burst : r.rate_limited.tokens ≤ r.rate_limited.burst

-- No row is removed, and none is put before another.
abbrev pub Extends : Database → Database → Type 0
Extends db db' = (new : List String) × (ids db'.rows ≡ ids db.rows ++ new)

pub record Carries (r r' : Router) : Type 0 where
  pub rows : Extends r.db r'.db
  pub sound : IsSound r → IsSound r'
  pub drained : IsDrained r.rate_limited → IsDrained r'.rate_limited

pub Extends-refl : (db : Database) → Extends db db
Extends-refl db = ([], sym (append-nil (ids db.rows)))

pub Extends-trans : (a b c : Database) → Extends a b → Extends b c → Extends a c
Extends-trans a b c (n, e) (m, f) = (n ++ m, f ∙ ap (λ l. l ++ m) e ∙ append_assoc (ids a.rows) n m)

pub Extends_same : (xs ys : List String) → ys ≡ xs → (new : List String) × (ys ≡ xs ++ new)
Extends_same xs ys e = ([], e ∙ sym (append-nil xs))

pub Carries-refl : (r : Router) → Carries r r
Carries-refl r = record { rows = Extends-refl r.db; sound = λ h. h; drained = λ d. d }

pub Carries-trans : (r s t : Router) → Carries r s → Carries s t → Carries r t
Carries-trans r s t h k = record {
  rows = Extends-trans r.db s.db t.db h.rows k.rows;
  sound = λ p. k.sound (h.sound p);
  drained = λ d. k.drained (h.drained d);
}

pub enqueue-Fits : (job : Job) (q : MemoryQueue) → Fits q → Fits (Memory.enqueue job q).1
unfolding Memory.enqueue
enqueue-Fits job q h = ground (arith, length-append q.jobs (job ∷ []))

pub enqueue-SortedJobs :
    (job : Job) (q : SortedQueue) → SortedJobs q → SortedJobs (Sorted.enqueue job q).1
unfolding Sorted.enqueue
enqueue-SortedJobs job q s = ground (arith, insert_locked-IsSorted job q.jobs s)

-- A method of one queue, with the rows kept and a property of the queue.
pub on_fifo-Carries :
    {A : Type 0} (m : Method (Backed MemoryQueue) Error A)
    → IsSafe Fits m
    → (r : Router) → Carries r (on_fifo m r).1
on_fifo-Carries m h r =
    let s = h (record { db = r.db; queue = r.fifo }) in
    record {
      rows = Extends_same _ _ s.rows;
      sound = λ p. record {
        fifo_fits = s.queue p.fifo_fits;
        sorted = p.sorted;
        rate_limited_fits = p.rate_limited_fits;
        within_burst = p.within_burst;
      };
      drained = λ d. d;
    }

pub on_priority-Carries :
    {A : Type 0} (m : Method (Backed SortedQueue) Error A)
    → IsSafe SortedJobs m
    → (r : Router) → Carries r (on_priority m r).1
on_priority-Carries m h r =
    let s = h (record { db = r.db; queue = r.priority }) in
    record {
      rows = Extends_same _ _ s.rows;
      sound = λ p. record {
        fifo_fits = p.fifo_fits;
        sorted = s.queue p.sorted;
        rate_limited_fits = p.rate_limited_fits;
        within_burst = p.within_burst;
      };
      drained = λ d. d;
    }

pub on_rate_limited-Carries :
    {A : Type 0} (m : Method (Backed MemoryQueue) Error A)
    → IsSafe Fits m
    → (r : Router) → Carries r (on_rate_limited m r).1
on_rate_limited-Carries m h r =
    let s = h (record { db = r.db; queue = r.rate_limited.memory }) in
    record {
      rows = Extends_same _ _ s.rows;
      sound = λ p. record {
        fifo_fits = p.fifo_fits;
        sorted = p.sorted;
        rate_limited_fits = s.queue p.rate_limited_fits;
        within_burst = p.within_burst;
      };
      drained = λ d. d;
    }

abbrev pub IsCarried : {A : Type 0} → Method Router Error A → Type 0
IsCarried m = (r : Router) → Carries r (m r).1

pub bind-IsCarried :
    {A B : Type 0} (m : Method Router Error A) (f : A → Method Router Error B)
    → IsCarried m
    → ((a : A) → IsCarried (f a))
    → IsCarried (m >>= f)
bind-IsCarried {A} {B} m f h k r = go (m r) (h r)
  where
    go : (x : Result Error A × Router) → Carries r x.1 → Carries r (follow f x).1
    go (ok a, t) p = Carries-trans r t _ p (k a t)
    go (err e, t) p = p

pub wrapping-IsCarried :
    {A : Type 0} (t : String) (m : Method Router Error A) → IsCarried m → IsCarried (wrapping t m)
wrapping-IsCarried {A} t m h r = go (m r) (h r)
  where
    go : (x : Result Error A × Router) → Carries r x.1 → Carries r (rewrap t x).1
    go (ok a, u) p = p
    go (err e, u) p = p
