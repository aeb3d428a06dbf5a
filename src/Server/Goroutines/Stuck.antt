-- ===== src/Server/Goroutines/Stuck.antt =====
-- A worker that waits for a token when the server shuts down.
use rjq.Common.{
  ℕ, zero, suc, ◌<◌, String, Option, none, some, List, [], ◌∷◌, ◌≡◌, ◌≢◌, refl, sym, ap, ◌∙◌, subst,
  get_elem?, set, arith,
}
use rjq.Common.Monad.{Result, ok, err}
use rjq.Models.{Job}
use rjq.Errors.{Error}
use rjq.Storage.Interface.{Storage}
use rjq.Storage.Contract.{Contract}
use rjq.Queue.RateLimited.{holding, delivered}
use rjq.Queue.RateLimited
use rjq.Queue.RateLimited.Drained.{IsDrained, take_token-IsDrained}
use rjq.Queue.Router.{Router}
use rjq.Queue.Router
use rjq.Queue.Router.Sound.Methods
use rjq.Queue.Router.Sound.Polls.{priority-Carries, close-Carries}
use rjq.Api.Routes.Reading.{AsksOnce}
use rjq.Worker.{
  System, Context, live, cancelled, expired, Outcome, succeeds, fails, settle, leave_job, start,
}
use rjq.Worker
use rjq.Worker.Preempt.{preempt-Outcome}
use rjq.Worker.Lives.Supervision.{occurs}
use rjq.Server.{shut_down, stopped}
use rjq.Server.Kept.{Kept}
use rjq.Server.Moves.{Moves-Kept}
use rjq.Server.Handlers.{worker_round-Kept}
use rjq.Server.Goroutines.{
  Phase, awaiting, Machine, launch, Step, moves, goes_round, spots, polls_on, gets_token, marks,
  registers, counts, returns, panics, judges, settles, uncounts, clears, ends, arrives, departs,
  expires, notices, restarts, leaves, closes, Steps, here, next,
}
use rjq.Server.Goroutines.Phases.{lives_at}
use rjq.Server.Goroutines.Asking.{poll_on-Carries}
use rjq.Server.Goroutines.Consistency.{Inv}
use rjq.Server.Goroutines.Supervised.{restarted-over}
use rjq.Server.Goroutines.Reached.{launch-Inv, Steps-Inv}

abbrev Drains : System → System → Type 0
Drains s t = IsDrained s.router.rate_limited → IsDrained t.router.rate_limited

preempt-Drains : (job : Job) (s : System) → Drains s (Worker.preempt job s).1
preempt-Drains job s d = go (Worker.preempt job s) (preempt-Outcome job s)
  where
    go :
        (x : Result Error String × System)
        → Worker.Preempt.Outcome job s x
        → IsDrained x.1.router.rate_limited
    go (err e, t) o = subst (λ (u : System). IsDrained u.router.rate_limited) (sym o.1) d
    go (ok id, t) o = subst (λ (r : Router). IsDrained r.rate_limited) (sym o.3) d

Drains-Kept : Kept Drains
Drains-Kept = record {
  same = λ s d. d;
  trans = λ s t u h k d. k (h d);
  routes = λ s r h. h.drained;
  preempts = preempt-Drains;
}

shut_down-Drains : (s t : System) → shut_down s ≡ some t → Drains s t
unfolding shut_down
shut_down-Drains s t h d = go (Router.close s.router) refl h
  where
    go :
        (o : Option Router)
        → Router.close s.router ≡ o
        → stopped s o ≡ some t
        → IsDrained t.router.rate_limited
    go none e f = cc
    go (some r) e f =
        let router : r ≡ t.router = ap router_of f in
        subst (λ (u : Router). IsDrained u.rate_limited) router
          ((close-Carries s.router r e).drained d)
      where
        router_of : Option System → Router
        router_of none = r
        router_of (some u) = u.router

-- Another worker's phase changes.
set-other :
    (ps : List Phase) (i k : ℕ) (p q x : Phase)
    → get_elem? ps i ≡ some p
    → get_elem? ps k ≡ some x
    → p ≢ x
    → get_elem? (set ps i q) k ≡ some x
set-other [] i k p q x h e n = cc
set-other (r ∷ rs) zero zero p q x h e n = absurd (n (cc))
set-other (r ∷ rs) zero (suc k) p q x h e n = e
set-other (r ∷ rs) (suc i) zero p q x h e n = e
set-other (r ∷ rs) (suc i) (suc k) p q x h e n = set-other rs i k p q x h e n

module _ (store : Storage) (c : Contract store) (asks : AsksOnce store) (count k : ℕ)
    (job : Job) where
  settle-Drains :
      (o : Outcome) (x : Context) (j : Job) (now : ℕ) (s : System)
      → Drains s (settle store o x j now s)
  settle-Drains succeeds x j now s = (Methods.ack-IsCarried store c j.id now s.router).drained
  settle-Drains fails live j now s = (Methods.nack-IsCarried store c j.id now s.router).drained
  settle-Drains fails expired j now s = (Methods.nack-IsCarried store c j.id now s.router).drained
  settle-Drains fails cancelled j now s =
      (Methods.requeue-IsCarried store c j.id now s.router).drained

  leave_job-Drains : (id : ℕ) (s : System) → Drains s (leave_job id s)
  unfolding leave_job
  leave_job-Drains id s d = d

  -- The worker has taken a job out of the rate-limited queue, there is no token left, and no further
  -- one comes.
  pub record IsStuck (m : Machine) : Type 0 where
    pub awaits : get_elem? m.phases k ≡ some (awaiting job)
    pub drained : IsDrained m.system.router.rate_limited

  stays :
      (m n : Machine) (id : ℕ) (p q : Phase)
      → n.phases ≡ set m.phases id q
      → get_elem? m.phases id ≡ some p
      → p ≢ awaiting job
      → IsDrained n.system.router.rate_limited
      → IsStuck m
      → IsStuck n
  stays m n id p q f e other d s = record {
    awaits =
        ap (λ ps. get_elem? ps k) f ∙ set-other m.phases id k p q (awaiting job) e s.awaits other;
    drained = d;
  }

  no_token :
      {A : Type 0} (q : RateLimited.RateLimitedQueue) (j : Job)
      → IsDrained q
      → (RateLimited.take_token j [] q).0 ≡ delivered j
      → A
  no_token q j d h = absurd (held (sym (take_token-IsDrained j [] q d).0 ∙ h))
    where
      held : ¬ (holding j ≡ delivered j)
      held e = cc

  Step-IsStuck : {l m : Machine} → Step store l m → Inv count l → IsStuck l → IsStuck m
  Step-IsStuck (moves m s h) v z = record {
    awaits = z.awaits;
    drained = Moves-Kept Drains Drains-Kept store c asks m.system s h z.drained;
  }
  Step-IsStuck (goes_round id passes p m e h f) v z =
      stays m _ id _ p refl e (λ n. cc)
        (worker_round-Kept Drains Drains-Kept id (λ s d. d) passes m.system h z.drained) z
  Step-IsStuck (spots id p m e h d w f t) v z =
      stays m _ id _ _ refl e (λ n. cc) ((priority-Carries p m.system.router h).drained z.drained) z
  Step-IsStuck (polls_on id p passes q m e h f) v z =
      stays m _ id _ q refl e (λ n. cc)
        ((poll_on-Carries p passes m.system.router h).drained z.drained) z
  Step-IsStuck (gets_token id j m e h) v z = no_token m.system.router.rate_limited j z.drained h
  Step-IsStuck (marks id j now m e) v z =
      stays m _ id _ _ refl e (λ n. cc)
        ((Methods.set_processing-IsCarried store c j.id now m.system.router).drained z.drained) z
  Step-IsStuck (registers id j m e) v z = stays m _ id _ _ refl e (λ n. cc) z.drained z
  Step-IsStuck (counts id j m e) v z = stays m _ id _ _ refl e (λ n. cc) z.drained z
  Step-IsStuck (returns id j o m e) v z = stays m _ id _ _ refl e (λ n. cc) z.drained z
  Step-IsStuck (panics id j m e) v z = stays m _ id _ _ refl e (λ n. cc) z.drained z
  Step-IsStuck (judges id j o m e) v z = stays m _ id _ _ refl e (λ n. cc) z.drained z
  Step-IsStuck (settles id j o x now m e) v z =
      stays m _ id _ _ refl e (λ n. cc) (settle-Drains o x j now m.system z.drained) z
  Step-IsStuck (uncounts id b j m e) v z = stays m _ id _ _ refl e (λ n. cc) z.drained z
  Step-IsStuck (clears id b j m e) v z =
      stays m _ id _ _ refl e (λ n. cc) (leave_job-Drains id m.system z.drained) z
  Step-IsStuck (ends id pre post m e f) v z = stays m _ id _ _ refl e (λ n. cc) z.drained z
  Step-IsStuck (arrives others m e) v z = record { awaits = z.awaits; drained = z.drained }
  Step-IsStuck (departs others fewer m e f) v z = record { awaits = z.awaits; drained = z.drained }
  Step-IsStuck (expires id m) v z = record { awaits = z.awaits; drained = z.drained }
  Step-IsStuck (notices id rest m e f) v z = record { awaits = z.awaits; drained = z.drained }
  Step-IsStuck (restarts id m e) v z =
      stays m _ id _ _ refl (restarted-over count id m e v) (λ n. cc) z.drained z
  Step-IsStuck (leaves m d) v z = record { awaits = z.awaits; drained = z.drained }
  Step-IsStuck (closes m s h) v z = record {
    awaits = z.awaits;
    drained = shut_down-Drains m.system s h z.drained;
  }

  Steps-IsStuck : {l m : Machine} → Steps store l m → Inv count l → IsStuck l → IsStuck m
  Steps-IsStuck (here m) v z = z
  Steps-IsStuck (next l m n h s) v z =
      Step-IsStuck s (Steps-Inv store c asks count h v) (Steps-IsStuck h v z)

  -- In every state that a started pool comes to among the goroutines of the server: a worker that has
  -- taken a job out of the rate-limited queue and waits for a token, when none is left and the refill
  -- has been stopped, as `Close` of the router does, waits for ever. Whatever the goroutines do, it
  -- keeps its goroutine, so that `Wait` does not return.
  pub launch-IsStuck :
      (s0 : System) (m n : Machine)
      → s0.pool ≡ start count
      → Steps store (launch s0) m
      → IsStuck m
      → Steps store m n
      → IsStuck n × (0 < occurs k n.running)
  launch-IsStuck s0 m n e h z g =
      let v = Steps-Inv store c asks count h (launch-Inv s0 count e) in
      let w = Steps-Inv store c asks count g v in
      let y = Steps-IsStuck g v z in (y, omega (arith, w.places k, ap lives_at y.awaits))
