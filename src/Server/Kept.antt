-- ===== src/Server/Kept.antt =====
-- What the steps of the server outside `processJob` keep: a relation between the states before and
-- after, of which the handlers need only the laws below.
use rjq.Common.{ℕ, String, Option, none, some, List, [], ◌∷◌, ◌++◌, ◌≡◌, refl, sym, ap, ◌∙◌, map}
use rjq.Common.Monad.{Result, ok, err}
use rjq.Models.{Job}
use rjq.Errors.{Error}
use rjq.Queue.Router.{Router}
use rjq.Queue.Router.Sound.{Carries}
use rjq.Worker.{Slot, System, on_slot, preempted, preempt_slots}
use rjq.Worker
use rjq.Worker.Slots.{job_in, current_job, change_slot-modify, modify-jobs}
use rjq.Worker.Preempt.{Picks, preempt-Outcome}
use rjq.Server.Invariant.{Leads, Leads-refl, Leads-trans, routed, preempt-Leads}

pub record Kept (R : System → System → Type 0) : Type 0 where
  pub same : (s : System) → R s s
  pub trans : (s t u : System) → R s t → R t u → R s u
  pub routes : (s : System) (r : Router) → Carries s.router r → R s (record s { router = r })
  pub preempts : (job : Job) (s : System) → R s (Worker.preempt job s).1

pub Leads-Kept : Kept Leads
Leads-Kept = record {
  same = Leads-refl;
  trans = Leads-trans;
  routes = routed;
  preempts = preempt-Leads;
}

-- The workers have the same jobs, and no goroutine of the pool has come or gone.
pub record SamePool (s t : System) : Type 0 where
  pub jobs : map job_in t.pool.slots ≡ map job_in s.pool.slots
  pub count : t.pool.count ≡ s.pool.count
  pub alive : t.pool.alive ≡ s.pool.alive
  pub done : t.pool.done ≡ s.pool.done

SamePool-refl : (s : System) → SamePool s s
SamePool-refl s = record { jobs = refl; count = refl; alive = refl; done = refl }

pub SamePool-trans : (s t u : System) → SamePool s t → SamePool t u → SamePool s u
SamePool-trans s t u h k = record {
  jobs = k.jobs ∙ h.jobs;
  count = k.count ∙ h.count;
  alive = k.alive ∙ h.alive;
  done = k.done ∙ h.done;
}

map-append {ℓ} :
    {A B : Type ℓ} (f : A → B) (xs ys : List A) → map f (xs ++ ys) ≡ map f xs ++ map f ys
map-append f [] ys = refl
map-append f (x ∷ xs) ys = ap (◌∷◌ (f x)) (map-append f xs ys)

picked-jobs :
    (job j : Job) (old new : List Slot) → Picks job j old new → map job_in new ≡ map job_in old
picked-jobs job j old new p =
    rw (p.was, p.becomes)
      (map-append job_in p.pre (_ ∷ p.post)
        ∙ ap (λ o. map job_in p.pre ++ (o ∷ map job_in p.post))
            (sym (ap current_job p.picked.current))
        ∙ sym (map-append job_in p.pre (p.slot ∷ p.post)))

preempt-rest :
    (job : Job) (s : System)
    → let t = (Worker.preempt job s).1.pool in
      (t.count ≡ s.pool.count) × (t.alive ≡ s.pool.alive) × (t.done ≡ s.pool.done)
unfolding Worker.preempt
preempt-rest job s = go (preempt_slots job s.pool.slots)
  where
    go :
        (o : Option (Job × List Slot))
        → let t = (preempted s o).1.pool in
          (t.count ≡ s.pool.count) × (t.alive ≡ s.pool.alive) × (t.done ≡ s.pool.done)
    go none = (refl, refl, refl)
    go (some (j, slots)) = (refl, refl, refl)

preempt-SamePool : (job : Job) (s : System) → SamePool s (Worker.preempt job s).1
preempt-SamePool job s =
    let (n, a, d) = preempt-rest job s in
    record {
      jobs = go (Worker.preempt job s) (preempt-Outcome job s);
      count = n;
      alive = a;
      done = d;
    }
  where
    go :
        (x : Result Error String × System)
        → Worker.Preempt.Outcome job s x
        → map job_in x.1.pool.slots ≡ map job_in s.pool.slots
    go (err e, t) o = ap (λ (u : System). map job_in u.pool.slots) o.1
    go (ok id, t) o = picked-jobs job o.0 s.pool.slots t.pool.slots o.2

-- A worker changes its own slot and keeps its job.
pub slots-SamePool :
    (id : ℕ) (f : Slot → Slot) (s : System)
    → ((x : Slot) → job_in (f x) ≡ job_in x)
    → SamePool s (on_slot id f s)
slots-SamePool id f s h = record {
  jobs = ap (map job_in) (change_slot-modify f id s.pool.slots) ∙ modify-jobs f id s.pool.slots h;
  count = refl;
  alive = refl;
  done = refl;
}

pub SamePool-Kept : Kept SamePool
SamePool-Kept = record {
  same = SamePool-refl;
  trans = SamePool-trans;
  routes = λ s r h. record { jobs = refl; count = refl; alive = refl; done = refl };
  preempts = preempt-SamePool;
}
