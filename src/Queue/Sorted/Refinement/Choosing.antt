-- ===== src/Queue/Sorted/Refinement/Choosing.antt =====
-- Which of the jobs that wait in the promised queue is served first.
use rjq.Common.{
  true, false, List, [], ◌∷◌, ◌++◌, ◌≡◌, refl, sym, ap, subst, inl, inr, All, All-append, arith,
  Bool-cases,
}
use rjq.Models.{Job}
use rjq.Queue.Sorted.Refinement.{overtakes, choose}

-- The one that is chosen: no job that waits is to be served before it, and those that arrived before
-- it would be served after it.
pub record First (job : Job) (older : List Job) (first : Job) (others : List Job) : Type 0 where
  pub pre : List Job
  pub post : List Job
  pub was : job ∷ older ≡ pre ++ (first ∷ post)
  pub becomes : others ≡ pre ++ post
  pub newer : All (λ a. overtakes a first ≡ false) pre
  pub elder : All (λ a. overtakes first a ≡ true) post

overtakes_all :
    (a b : Job) (jobs : List Job)
    → overtakes a b ≡ true
    → All (λ c. overtakes b c ≡ true) jobs
    → All (λ c. overtakes a c ≡ true) jobs
overtakes_all a b [] h k = tt
overtakes_all a b (c ∷ jobs) h k = let e = k.0 in (ground arith, overtakes_all a b jobs h k.1)

overtakes_newer :
    (a b : Job) (jobs : List Job)
    → overtakes a b ≡ true
    → All (λ c. overtakes c b ≡ false) jobs
    → All (λ c. overtakes a c ≡ true) jobs
overtakes_newer a b [] h k = tt
overtakes_newer a b (c ∷ jobs) h k = let e = k.0 in (ground arith, overtakes_newer a b jobs h k.1)

-- `choose` finds the first one.
choose-First :
    (job : Job) (older : List Job)
    → let (first, others) = choose job older in First job older first others
unfolding choose
choose-First job [] = record {
  pre = [];
  post = [];
  was = refl;
  becomes = refl;
  newer = tt;
  elder = tt;
}
choose-First job (old ∷ rest) =
    let f = choose-First old rest in
    let first = (choose old rest).0 in
    elim (Bool-cases (overtakes job first)) [
      | inl b ↦ rw b (record {
        pre = [];
        post = old ∷ rest;
        was = refl;
        becomes = refl;
        newer = tt;
        elder = subst (All (λ a. overtakes job a ≡ true)) (sym f.was) (
            All-append _ f.pre (first ∷ f.post) (overtakes_newer job first f.pre b f.newer)
              (b, overtakes_all job first f.post b f.elder));
      })
      | inr b ↦ rw b (record {
        pre = job ∷ f.pre;
        post = f.post;
        was = ap (◌∷◌ job) f.was;
        becomes = ap (◌∷◌ job) f.becomes;
        newer = (b, f.newer);
        elder = f.elder;
      })
    ]
