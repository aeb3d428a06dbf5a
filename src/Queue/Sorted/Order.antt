-- ===== src/Queue/Sorted/Order.antt =====
-- The order in which `SortedQueue` keeps and serves its jobs.
use mathlib.Core.List.Perm
use rjq.Common.{
  ◌≤◌, ◌<◌, true, false, List, [], ◌∷◌, ◌++◌, Perm, ◌≡◌, refl, ap, ◌⊎◌, inl, inr, if◌then◌else◌,
  All, arith, Bool-cases,
}
use rjq.Models.{Job}
use rjq.Queue.Sorted.{goes_before, insert_locked}

-- `a` may stand ahead of `b`: a higher priority, or the same and not created later.
abbrev pub Ahead : Job → Job → Type 0
Ahead a b = (b.priority < a.priority) ⊎ (a.priority ≡ b.priority) × (a.created_at ≤ b.created_at)

-- `a` has to stand ahead of `b`.
abbrev pub StrictlyAhead : Job → Job → Type 0
StrictlyAhead a b =
    (b.priority < a.priority) ⊎ (a.priority ≡ b.priority) × (a.created_at < b.created_at)

-- Every job may stand ahead of all that follow it.
abbrev pub IsSorted : List Job → Type 0
IsSorted [] = Unit {0}
IsSorted (job ∷ jobs) = All (Ahead job) jobs × IsSorted jobs

-- The insertion, by recursion on the queue.
unfoldable pub insert : Job → List Job → List Job
insert job [] = job ∷ []
insert job (cur ∷ rest) = if goes_before job cur then job ∷ cur ∷ rest else cur ∷ insert job rest

-- The index, the append and the copy amount to it.
pub insert_locked-insert : (job : Job) (jobs : List Job) → insert_locked job jobs ≡ insert job jobs
unfolding insert_locked insert
insert_locked-insert job [] = refl
insert_locked-insert job (cur ∷ rest) = elim (Bool-cases (goes_before job cur)) [
  | inl e ↦ rw e refl
  | inr e ↦ rw e (ap (◌∷◌ cur) (insert_locked-insert job rest))
]

before-StrictlyAhead : (a b : Job) → goes_before a b ≡ true → StrictlyAhead a b
before-StrictlyAhead a b h = ground arith

not_before-Ahead : (a b : Job) → goes_before a b ≡ false → Ahead b a
not_before-Ahead a b h = ground arith

Ahead-trans : (a b c : Job) → Ahead a b → Ahead b c → Ahead a c
Ahead-trans a b c h k = ground arith

All-Ahead : (a b : Job) (jobs : List Job) → Ahead a b → All (Ahead b) jobs → All (Ahead a) jobs
All-Ahead a b [] h k = tt
All-Ahead a b (c ∷ jobs) h k = (Ahead-trans a b c h k.0, All-Ahead a b jobs h k.1)

All-insert :
    (P : Job → Type 0) (job : Job) (jobs : List Job) → P job → All P jobs → All P (insert job jobs)
unfolding insert
All-insert P job [] h k = (h, tt)
All-insert P job (cur ∷ rest) h k = elim (Bool-cases (goes_before job cur)) [
  | inl e ↦ rw e (h, k)
  | inr e ↦ rw e (k.0, All-insert P job rest h k.1)
]

insert-IsSorted : (job : Job) (jobs : List Job) → IsSorted jobs → IsSorted (insert job jobs)
unfolding insert
insert-IsSorted job [] s = (tt, tt)
insert-IsSorted job (cur ∷ rest) s = elim (Bool-cases (goes_before job cur)) [
  | inl e ↦
      let h : Ahead job cur = ground (arith, before-StrictlyAhead job cur e) in
      rw e ((h, All-Ahead job cur rest h s.0), s)
  | inr e ↦ rw e (
    All-insert (Ahead cur) job rest (not_before-Ahead job cur e) s.0,
    insert-IsSorted job rest s.1,
  )
]

insert-perm : (job : Job) (jobs : List Job) → Perm (insert job jobs) (job ∷ jobs)
unfolding insert
insert-perm job [] = Perm.refl (job ∷ [])
insert-perm job (cur ∷ rest) = elim (Bool-cases (goes_before job cur)) [
  | inl e ↦ rw e (Perm.refl (job ∷ cur ∷ rest))
  | inr e ↦ rw e (Perm.trans (Perm.cons cur (insert-perm job rest)) (Perm.swap job cur rest))
]

-- A job that is put in the queue stands there once, beside all the others.
pub insert_locked-perm : (job : Job) (jobs : List Job) → Perm (insert_locked job jobs) (job ∷ jobs)
insert_locked-perm job jobs = rw (insert_locked-insert job jobs) (insert-perm job jobs)

-- The insertion into a sorted queue leaves it sorted by descending priority and, within one, by
-- ascending creation time.
pub insert_locked-IsSorted :
    (job : Job) (jobs : List Job) → IsSorted jobs → IsSorted (insert_locked job jobs)
insert_locked-IsSorted job jobs s = rw (insert_locked-insert job jobs) (insert-IsSorted job jobs s)

-- The place of a new job: all in `pre` may stand ahead of it, it has to stand ahead of all in
-- `post`, and the queue is the two with the job between them.
pub record Placed (job : Job) (old new : List Job) : Type 0 where
  pub pre : List Job
  pub post : List Job
  pub was : old ≡ pre ++ post
  pub becomes : new ≡ pre ++ (job ∷ post)
  pub behind : All (λ cur. Ahead cur job) pre
  pub ahead : All (λ cur. StrictlyAhead job cur) post

Strictly-trans : (a b c : Job) → StrictlyAhead a b → Ahead b c → StrictlyAhead a c
Strictly-trans a b c h k = ground arith

All-Strictly :
    (a b : Job) (jobs : List Job)
    → StrictlyAhead a b
    → All (Ahead b) jobs
    → All (StrictlyAhead a) jobs
All-Strictly a b [] h k = tt
All-Strictly a b (c ∷ jobs) h k = (Strictly-trans a b c h k.0, All-Strictly a b jobs h k.1)

Placed-cons :
    (job cur : Job) (old new : List Job)
    → Ahead cur job
    → Placed job old new
    → Placed job (cur ∷ old) (cur ∷ new)
Placed-cons job cur old new h p = record {
  pre = cur ∷ p.pre;
  post = p.post;
  was = ap (◌∷◌ cur) p.was;
  becomes = ap (◌∷◌ cur) p.becomes;
  behind = (h, p.behind);
  ahead = p.ahead;
}

insert-Placed : (job : Job) (jobs : List Job) → IsSorted jobs → Placed job jobs (insert job jobs)
unfolding insert
insert-Placed job [] s = record {
  pre = [];
  post = [];
  was = refl;
  becomes = refl;
  behind = tt;
  ahead = tt;
}
insert-Placed job (cur ∷ rest) s = elim (Bool-cases (goes_before job cur)) [
  | inl e ↦
      let h = before-StrictlyAhead job cur e in
      rw e (record {
        pre = [];
        post = cur ∷ rest;
        was = refl;
        becomes = refl;
        behind = tt;
        ahead = (h, All-Strictly job cur rest h s.0);
      })
  | inr e ↦ rw e (
      Placed-cons job cur rest (insert job rest) (not_before-Ahead job cur e)
        (insert-Placed job rest s.1))
]

-- In a sorted queue a new job is placed behind every job of a higher priority and every one of its
-- own priority that is not younger, and ahead of all the others, which keep their order.
pub insert_locked-Placed :
    (job : Job) (jobs : List Job) → IsSorted jobs → Placed job jobs (insert_locked job jobs)
insert_locked-Placed job jobs s = rw (insert_locked-insert job jobs) (insert-Placed job jobs s)
