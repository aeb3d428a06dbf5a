-- ===== src/Queue/Sorted/Calls.antt =====
-- The critical sections of `SortedQueue` in any order, by any number of goroutines: `Enqueue`, the
-- pops of `Dequeue` and `DequeueOrWait`, and `Close`.
use mathlib.Core.List.{perm_middle}
use mathlib.Core.List.Perm
use rjq.Common.{
  true, Option, none, some, List, [], ◌∷◌, ◌++◌, Perm, ◌≡◌, refl, ◌∙◌, inl, inr, All, arith,
  Bool-cases,
}
use rjq.Common.Monad.{Result, ok, err}
use rjq.Models.{Job}
use rjq.Errors.{Error}
use rjq.Queue.Sorted.{
  SortedQueue, new_sorted_queue, insert_locked, enqueue, pop_jobs, pop_locked, close,
}
use rjq.Queue.Sorted.Order.{Ahead, IsSorted, insert_locked-perm, insert_locked-IsSorted}

pub data Call : Type 0 where
  enqueues : Job → Call
  pops closes : Call

-- The queue with what it has taken in and what it has handed out so far, the newest first.
pub record Run : Type 0 where
  pub queue : SortedQueue
  pub accepted : List Job
  pub served : List Job

abbrev pub start : Run
start = record { queue = new_sorted_queue; accepted = []; served = [] }

abbrev accept : Job → Run → Result Error (Unit {0}) × SortedQueue → Run
accept job s (ok _, q) = record s { queue = q; accepted = job ∷ s.accepted }
accept job s (err _, q) = record s { queue = q }

abbrev serve : Run → Option Job × SortedQueue → Run
serve s (none, q) = record s { queue = q }
serve s (some job, q) = record s { queue = q; served = job ∷ s.served }

unfoldable pub step : Run → Call → Run
unfolding enqueue pop_locked close
step s (enqueues job) = accept job s (enqueue job s.queue)
step s pops = serve s (pop_locked s.queue)
step s closes = record s { queue = close s.queue }

unfoldable pub run : Run → List Call → Run
unfolding step
run s [] = s
run s (c ∷ cs) = run (step s c) cs

pub record Inv (s : Run) : Type 0 where
  pub sorted : IsSorted s.queue.jobs
  pub conserved : Perm (s.served ++ s.queue.jobs) s.accepted

start-Inv : Inv start
start-Inv = record { sorted = tt; conserved = Perm.nil }

pop-Inv :
    (s : Run) (jobs : List Job)
    → s.queue.jobs ≡ jobs
    → Inv s
    → Inv (serve s (pop_jobs jobs s.queue))
pop-Inv s [] e v = v
pop-Inv s (job ∷ rest) e v = record {
  sorted = (rw e at v.sorted).1;
  conserved = Perm.trans (Perm.symm (perm_middle s.served rest)) (rw e at v.conserved);
}

accepted-Inv :
    (s : Run) (job : Job) (q : SortedQueue)
    → q.jobs ≡ insert_locked job s.queue.jobs
    → Inv s
    → Inv (record s { queue = q; accepted = job ∷ s.accepted })
accepted-Inv s job q e v = record {
  sorted = rw e (insert_locked-IsSorted job s.queue.jobs v.sorted);
  conserved = rw e (
      Perm.trans (Perm.append_left s.served (insert_locked-perm job s.queue.jobs))
        (Perm.trans (perm_middle s.served s.queue.jobs) (Perm.cons job v.conserved)));
}

enqueue-Inv : (s : Run) (job : Job) → Inv s → Inv (accept job s (enqueue job s.queue))
unfolding enqueue
enqueue-Inv s job v = elim (Bool-cases s.queue.closed) [
  | inl e ↦ simp e v
  | inr e ↦ simp e (accepted-Inv s job _ refl v)
]

jobs-close : (q : SortedQueue) → (close q).jobs ≡ q.jobs
unfolding close
jobs-close q = ground arith

step-Inv : (s : Run) (c : Call) → Inv s → Inv (step s c)
unfolding step
step-Inv s (enqueues job) v = enqueue-Inv s job v
step-Inv s pops v = pop-Inv s s.queue.jobs refl v
step-Inv s closes v = record {
  sorted = rw (jobs-close s.queue) v.sorted;
  conserved = rw (jobs-close s.queue) v.conserved;
}

run-Inv : (s : Run) (cs : List Call) → Inv s → Inv (run s cs)
unfolding run
run-Inv s [] v = v
run-Inv s (c ∷ cs) v = run-Inv (step s c) cs (step-Inv s c v)

-- Whatever critical sections run on a new queue, in whatever order, its jobs stay sorted, and the
-- jobs served together with those still queued are the jobs accepted: none is lost or doubled.
pub run-start-Inv : (cs : List Call) → Inv (run start cs)
run-start-Inv cs = run-Inv start cs start-Inv

-- What the next pop hands out.
abbrev pub Serves : List Job → Option Job × SortedQueue → Type 0
Serves jobs (none, q) = jobs ≡ []
Serves jobs (some job, q) = All (Ahead job) q.jobs × (jobs ≡ job ∷ q.jobs)

pop_jobs-Serves :
    (q : SortedQueue) (jobs : List Job) → IsSorted jobs → Serves jobs (pop_jobs jobs q)
pop_jobs-Serves q [] s = refl
pop_jobs-Serves q (job ∷ rest) s = (s.0, refl)

-- After any critical sections on a new queue, a pop returns no job only if none is queued, and
-- otherwise takes out a job that may stand ahead of every job that stays.
pop_locked-Serves : (cs : List Call) → let q = (run start cs).queue in Serves q.jobs (pop_locked q)
unfolding pop_locked
pop_locked-Serves cs =
    let q = (run start cs).queue in pop_jobs-Serves q q.jobs (run-start-Inv cs).sorted

closed-step :
    (s : Run) (c : Call)
    → s.queue.closed ≡ true
    → ((step s c).queue.closed ≡ true) × ((step s c).accepted ≡ s.accepted)
unfolding step
closed-step s (enqueues job) h = ground arith
closed-step s pops h = ground arith
closed-step s closes h = ground arith

-- A closed queue stays closed and accepts no job, whatever calls follow.
closed-run :
    (s : Run) (cs : List Call)
    → s.queue.closed ≡ true
    → ((run s cs).queue.closed ≡ true) × ((run s cs).accepted ≡ s.accepted)
unfolding run
closed-run s [] h = (h, refl)
closed-run s (c ∷ cs) h =
    let (k, e) = closed-step s c h in let (k', e') = closed-run (step s c) cs k in (k', e' ∙ e)
