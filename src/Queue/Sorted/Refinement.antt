-- ===== src/Queue/Sorted/Refinement.antt =====
-- What `SortedQueue` promises its callers, as a queue that keeps the jobs in the order of their
-- arrival and looks for the next one only when it is asked for it.
pub mod Choosing
use rjq.Common.{
  Bool, true, false, ◌&&◌, ◌||◌, Option, none, some, List, [], ◌∷◌, ◌≡◌, refl, ap, ap₂, ◌∙◌, inl,
  inr, if◌then◌else◌, ltb, ◌==◌, arith, Bool-cases,
}
use rjq.Common.Monad.{Result, ok, err}
use rjq.Models.{Job}
use rjq.Errors.{Error}
use rjq.Queue.Sorted.{
  SortedQueue, new_sorted_queue, goes_before, enqueue, pop_jobs, pop_locked, close,
}
use rjq.Queue.Sorted.Order.{insert, insert_locked-insert}
use rjq.Queue.Sorted.Calls.{Call, enqueues, pops, closes}

-- The jobs that wait, the newest arrival first.
pub record Waiting : Type 0 where
  pub arrivals : List Job
  pub closed : Bool

-- `b` arrived before `a`, and `a` is served first all the same.
abbrev pub overtakes : Job → Job → Bool
overtakes a b =
    ltb b.priority a.priority || (b.priority == a.priority) && ltb a.created_at b.created_at

-- The next of some jobs, with the others in the order of their arrival.
pub choose : Job → List Job → Job × List Job
choose job [] = (job, [])
choose job (older ∷ rest) =
    let (first, others) = choose older rest in
    if overtakes job first then (job, older ∷ rest) else (first, job ∷ others)

pub data Reply : Type 0 where
  accepted refused closed_now : Reply
  handed : Option Job → Reply

abbrev pub served : Option (Job × List Job) → Waiting → Reply × Waiting
served none w = (handed none, w)
served (some (job, others)) w = (handed (some job), record w { arrivals = others })

abbrev pub next_of : List Job → Option (Job × List Job)
next_of [] = none
next_of (job ∷ older) = some (choose job older)

-- The promise: a closed queue refuses, and a pop hands out the next of the jobs that wait.
pub promised : Call → Waiting → Reply × Waiting
promised (enqueues job) w =
    if w.closed then (refused, w) else (accepted, record w { arrivals = job ∷ w.arrivals })
promised pops w = served (next_of w.arrivals) w
promised closes w = (closed_now, record w { closed = true })

-- What the code replies.
abbrev pub taken : Result Error (Unit {0}) × SortedQueue → Reply × SortedQueue
taken (ok _, q) = (accepted, q)
taken (err _, q) = (refused, q)

pub reply : Call → SortedQueue → Reply × SortedQueue
unfolding enqueue pop_locked close
reply (enqueues job) q = taken (enqueue job q)
reply pops q = let (job, q') = pop_locked q in (handed job, q')
reply closes q = (closed_now, close q)

unfoldable pub promises : List Call → Waiting → List Reply
promises [] w = []
promises (c ∷ cs) w = let (r, w') = promised c w in r ∷ promises cs w'

unfoldable pub replies : List Call → SortedQueue → List Reply
replies [] q = []
replies (c ∷ cs) q = let (r, q') = reply c q in r ∷ replies cs q'

sorted : List Job → List Job
sorted [] = []
sorted (job ∷ older) = insert job (sorted older)

-- The queue holds the jobs that wait, sorted.
record Shows (w : Waiting) (q : SortedQueue) : Type 0 where
  jobs : q.jobs ≡ sorted w.arrivals
  closed : q.closed ≡ w.closed

overtakes-goes_before : (a b : Job) → goes_before a b ≡ overtakes a b
overtakes-goes_before a b = ground arith

insert-sorted :
    (job first : Job) (all rest : List Job)
    → all ≡ first ∷ rest
    → insert job all ≡ (if overtakes job first then job ∷ all else first ∷ insert job rest)
unfolding insert
insert-sorted job first all rest e = rw e (
    ap (λ b. if b then job ∷ first ∷ rest else first ∷ insert job rest)
      (overtakes-goes_before job first))

sorted-choose :
    (job : Job) (older : List Job)
    → let (first, others) = choose job older in sorted (job ∷ older) ≡ first ∷ sorted others
unfolding sorted choose insert
sorted-choose job [] = refl
sorted-choose job (old ∷ rest) =
    let (first, others) = choose old rest in
    let ih : sorted (old ∷ rest) ≡ first ∷ sorted others = sorted-choose old rest in
    elim (Bool-cases (overtakes job first)) [
      | inl b ↦ insert-sorted job first (sorted (old ∷ rest)) (sorted others) ih ∙ rw b refl
      | inr b ↦ insert-sorted job first (sorted (old ∷ rest)) (sorted others) ih ∙ rw b refl
    ]

-- The reply of the code is the promised one, and the queue still shows the jobs that wait.
record Keeps (x : Reply × Waiting) (y : Reply × SortedQueue) : Type 0 where
  same : y.0 ≡ x.0
  shows : Shows x.1 y.1

pops-Keeps :
    (arrivals jobs : List Job) (w : Waiting) (q : SortedQueue)
    → jobs ≡ sorted arrivals
    → Shows w q
    → w.arrivals ≡ arrivals
    → q.jobs ≡ jobs
    → Keeps (served (next_of arrivals) w) (let (job, q') = pop_jobs jobs q in (handed job, q'))
pops-Keeps [] [] w q e s f g = record { same = refl; shows = s }
pops-Keeps [] (j ∷ js) w q e s f g = unfold sorted in cc
pops-Keeps (job ∷ older) [] w q e s f g = cc (e ∙ sorted-choose job older)
pops-Keeps (job ∷ older) (j ∷ js) w q e s f g =
    let k = e ∙ sorted-choose job older in
    record { same = cc k; shows = record { jobs = cc k; closed = s.closed } }

accepted-Keeps :
    (job : Job) (w : Waiting) (q : SortedQueue)
    → Shows w q
    → Keeps (promised (enqueues job) w) (reply (enqueues job) q)
unfolding promised reply sorted
accepted-Keeps job w q s = elim (Bool-cases w.closed) [
  | inl b ↦
      let c : q.closed ≡ true = s.closed ∙ b in simp (b, c) (record { same = refl; shows = s })
  | inr b ↦
      let c : q.closed ≡ false = s.closed ∙ b in
      simp (b, c)
        (record {
          same = refl;
          shows = record {
            jobs = insert_locked-insert job q.jobs ∙ ap (insert job) s.jobs;
            closed = refl;
          };
        })
]

closed-close : (q : SortedQueue) → ((close q).jobs ≡ q.jobs) × ((close q).closed ≡ true)
unfolding close
closed-close q = ground arith

promised-Keeps :
    (c : Call) (w : Waiting) (q : SortedQueue) → Shows w q → Keeps (promised c w) (reply c q)
unfolding promised reply
promised-Keeps (enqueues job) w q s = accepted-Keeps job w q s
promised-Keeps pops w q s = pops-Keeps w.arrivals q.jobs w q s.jobs s refl refl
promised-Keeps closes w q s = record {
  same = refl;
  shows = record { jobs = (closed-close q).0 ∙ s.jobs; closed = (closed-close q).1 };
}

replies-promises :
    (cs : List Call) (w : Waiting) (q : SortedQueue) → Shows w q → replies cs q ≡ promises cs w
unfolding replies promises
replies-promises [] w q s = refl
replies-promises (c ∷ cs) w q s =
    let k = promised-Keeps c w q s in
    ap₂ (λ r rs. r ∷ rs) k.same (replies-promises cs (promised c w).1 (reply c q).1 k.shows)

-- Whatever `Enqueue`s, pops and `Close`s run on a new `SortedQueue`, each replies what it would on a
-- queue that keeps the jobs as they arrive and, when it is asked, looks for the one of the highest
-- priority, among these for the one created first, and among these for the one that arrived first.
pub new_sorted_queue-promises :
    (cs : List Call)
    → replies cs new_sorted_queue ≡ promises cs (record { arrivals = []; closed = false })
unfolding sorted
new_sorted_queue-promises cs = replies-promises cs _ _ (record { jobs = refl; closed = refl })
