-- ===== src/Server/Goroutines/Reached.antt =====
-- What holds in every state that the goroutines of the running server come to.
use rjq.Common.{
  ℕ, String, pos, ap, ◌∙◌, Bool, true, false, Option, none, some, ◌≡◌, refl, sym, subst, get_elem?,
}
use rjq.Models.{Job}
use rjq.Storage.Interface.{Storage}
use rjq.Storage.Contract.{Contract}
use rjq.Config.{Config}
use rjq.Storage.Open.{Source, opened_db}
use rjq.Queue.Router.{Router}
use rjq.Queue.Router.Sound.{Extends, Extends-refl}
use rjq.Queue.Router.Sound.Methods
use rjq.Api.Routes.Reading.{AsksOnce}
use rjq.Worker.{
  System, Context, live, cancelled, expired, Outcome, succeeds, fails, settle, start, worker_round,
  leave_job,
}
use rjq.Worker.Lives
use rjq.Worker.Lives.Supervision
use rjq.Worker.Lives.Supervision.{started-Inv, occurs-ids_below}
use rjq.Server.{backend, source, count_of, launched, start_server}
use rjq.Server.Start.{Starts, start_server-Starts}
use rjq.Server.Build.{backend_contract, backend_asks}
use rjq.Server.Invariant.{Sound, Leads, Leads-refl, Leads-trans, routed, slotted, settle-Leads}
use rjq.Worker.Slots.{current_job}
use rjq.Server.Kept.{SamePool, slots-SamePool, Leads-Kept, SamePool-Kept}
use rjq.Server.Moves.{Moves-Kept}
use rjq.Server.Handlers.{worker_round-Kept, leave_job-Leads}
use rjq.Server.Ending.{shut_down-Leads}
use rjq.Server.Goroutines.{
  Phase, looking, spotted, registered_yet, goes_to, Machine, lives_of, launch, after_job,
  expire_current, Step, moves, goes_round, spots, polls_on, gets_token, poll_on, marks, registers,
  counts, returns, panics, judges, settles, uncounts, clears, ends, arrives, departs, expires,
  notices, restarts, leaves, closes, Steps, here, next,
}
use rjq.Server.Goroutines.Asking.{
  IsFree, after_delivery-IsFree, after_round-IsFree, poll_on-Carries,
}
use rjq.Queue.Router.Sound.Polls.{priority-Carries, take_token-Carries}
use rjq.Server.Goroutines.Phases.{
  in_slot, busy_in, lives_in, slots-replicate, busy_count-replicate, lives_at-replicate,
  length-replicate,
}
use rjq.Server.Goroutines.Consistency.{
  Inv, outside-Inv, steps-Inv, counts-Inv, uncounts-Inv, writes-Inv,
}
use rjq.Server.Goroutines.Supervised.{
  ends-Inv, arrives-Inv, departs-Inv, restarts-Inv, notices-Inv, leaves-Inv, closes-Inv,
}

after_job-IsFree : (b : Bool) → IsFree (after_job b)
after_job-IsFree true = (refl, refl, refl)
after_job-IsFree false = (refl, refl, refl)

expire-job : (o : Option (Job × Context)) → current_job (expire_current o) ≡ current_job o
expire-job none = refl
expire-job (some (j, x)) = refl

reroutes : (s : System) (r : Router) → SamePool s (record s { router = r })
reroutes s r = record { jobs = refl; count = refl; alive = refl; done = refl }

pub settle-SamePool :
    (store : Storage) (o : Outcome) (x : Context) (job : Job) (now : ℕ) (s : System)
    → SamePool s (settle store o x job now s)
settle-SamePool store succeeds x job now s = reroutes s _
settle-SamePool store fails live job now s = reroutes s _
settle-SamePool store fails expired job now s = reroutes s _
settle-SamePool store fails cancelled job now s = reroutes s _

leave_job-Inv :
    (n id : ℕ) (q : Phase) (m : Machine) (job : Job) (b : Bool)
    → get_elem? m.phases id ≡ some (registered_yet b job)
    → Inv n m
    → in_slot q ≡ none
    → busy_in q ≡ 0
    → lives_in q ≡ 1
    → Inv n (goes_to id q m (leave_job id m.system))
unfolding leave_job
leave_job-Inv n id q m job b e v j f l = writes-Inv n id _ q m e l v _ (λ x. sym j) f

module _ (store : Storage) (c : Contract store) (asks : AsksOnce store) where
  Step-Leads : {l m : Machine} → Step store l m → Leads l.system m.system
  Step-Leads (moves m s h) = Moves-Kept Leads Leads-Kept store c asks m.system s h
  Step-Leads (goes_round id passes p m e h f) =
      worker_round-Kept Leads Leads-Kept id (slotted id _) passes m.system h
  Step-Leads (spots id p m e h d w n t) = routed m.system _ (priority-Carries p m.system.router h)
  Step-Leads (polls_on id p passes q m e h f) =
      routed m.system _ (poll_on-Carries p passes m.system.router h)
  Step-Leads (gets_token id job m e h) = routed m.system _ (take_token-Carries job m.system.router)
  Step-Leads (marks id job now m e) =
      routed m.system _ (Methods.set_processing-IsCarried store c job.id now m.system.router)
  Step-Leads (registers id job m e) = slotted id _ m.system
  Step-Leads (counts id job m e) = Leads-refl m.system
  Step-Leads (returns id job o m e) = Leads-refl m.system
  Step-Leads (panics id job m e) = Leads-refl m.system
  Step-Leads (judges id job o m e) = Leads-refl m.system
  Step-Leads (settles id job o x now m e) = settle-Leads store c o x job now m.system
  Step-Leads (uncounts id b job m e) = Leads-refl m.system
  Step-Leads (clears id b job m e) = leave_job-Leads id m.system
  Step-Leads (ends id pre post m e f) = record {
    rows = Extends-refl m.system.router.db;
    sound = λ p. record { queues = p.queues; slots = p.slots };
  }
  Step-Leads (arrives others m e) = record {
    rows = Extends-refl m.system.router.db;
    sound = λ p. record { queues = p.queues; slots = p.slots };
  }
  Step-Leads (departs others fewer m e f) = record {
    rows = Extends-refl m.system.router.db;
    sound = λ p. record { queues = p.queues; slots = p.slots };
  }
  Step-Leads (expires id m) = slotted id _ m.system
  Step-Leads (notices id rest m e f) = Leads-refl m.system
  Step-Leads (restarts id m e) = record {
    rows = Extends-refl m.system.router.db;
    sound = λ p. record { queues = p.queues; slots = p.slots };
  }
  Step-Leads (leaves m d) = Leads-refl m.system
  Step-Leads (closes m s h) = shut_down-Leads m.system s h

  pub Step-Inv : (n : ℕ) {l m : Machine} → Step store l m → Inv n l → Inv n m
  Step-Inv n (moves m s h) v =
      outside-Inv n m s (Moves-Kept SamePool SamePool-Kept store c asks m.system s h) v
  Step-Inv n (goes_round id passes p m e h f) v =
      let (j, b, l) = after_round-IsFree (worker_round id passes m.system).0 p f in
      steps-Inv n id looking p m e l v _
        (worker_round-Kept SamePool SamePool-Kept id (λ s. slots-SamePool id _ s (λ x. refl)) passes
          m.system h)
        j b
  Step-Inv n (spots id p m e h d w f t) v =
      steps-Inv n id _ _ m e refl v _ (reroutes m.system _) refl refl
  Step-Inv n (polls_on id p passes q m e h f) v =
      let (j, b, l) = after_delivery-IsFree (poll_on p passes m.system.router).0 q f in
      steps-Inv n id spotted q m e l v _ (reroutes m.system _) j b
  Step-Inv n (gets_token id job m e h) v =
      steps-Inv n id _ _ m e refl v _ (reroutes m.system _) refl refl
  Step-Inv n (marks id job now m e) v =
      steps-Inv n id _ _ m e refl v _ (reroutes m.system _) refl refl
  Step-Inv n (registers id job m e) v = writes-Inv n id _ _ m e refl v _ (λ x. refl) refl
  Step-Inv n (counts id job m e) v = counts-Inv n id _ _ m e refl v refl refl refl
  Step-Inv n (returns id job o m e) v =
      steps-Inv n id _ _ m e refl v _ (SamePool-Kept.same m.system) refl refl
  Step-Inv n (panics id job m e) v =
      steps-Inv n id _ _ m e refl v _ (SamePool-Kept.same m.system) refl refl
  Step-Inv n (judges id job o m e) v =
      steps-Inv n id _ _ m e refl v _ (SamePool-Kept.same m.system) refl refl
  Step-Inv n (settles id job o x now m e) v =
      steps-Inv n id _ _ m e refl v _ (settle-SamePool store o x job now m.system) refl refl
  Step-Inv n (uncounts id b job m e) v = uncounts-Inv n id _ _ m e refl v refl refl refl
  Step-Inv n (clears id b job m e) v =
      let (j, f, l) = after_job-IsFree b in leave_job-Inv n id (after_job b) m job b e v j f l
  Step-Inv n (ends id pre post m e f) v = ends-Inv n id pre post m e f v
  Step-Inv n (arrives others m e) v = arrives-Inv n others m e v
  Step-Inv n (departs others fewer m e f) v = departs-Inv n others fewer m e f v
  Step-Inv n (expires id m) v =
      outside-Inv n m _ (slots-SamePool id _ m.system (λ x. expire-job x.current)) v
  Step-Inv n (notices id rest m e f) v = notices-Inv n id rest m e f v
  Step-Inv n (restarts id m e) v = restarts-Inv n id m e v
  Step-Inv n (leaves m d) v = leaves-Inv n m d v
  Step-Inv n (closes m s h) v = closes-Inv n m s h v

  pub Steps-Inv : (n : ℕ) {l m : Machine} → Steps store l m → Inv n l → Inv n m
  Steps-Inv n (here m) v = v
  Steps-Inv n (next l k m h s) v = Step-Inv n s (Steps-Inv n h v)

  pub Steps-Leads : {l m : Machine} → Steps store l m → Leads l.system m.system
  Steps-Leads (here m) = Leads-refl m.system
  Steps-Leads (next l k m h s) =
      Leads-trans l.system k.system m.system (Steps-Leads h) (Step-Leads s)

-- After `pool.Start()`.
pub launch-Inv : (s : System) (n : ℕ) → s.pool ≡ start n → Inv n (launch s)
unfolding launch Lives.started
launch-Inv s n e =
    subst (λ p. Inv n (launch (record s { pool = p }))) (sym e)
      (record {
        slots = slots-replicate n;
        gauge = ap pos (sym (busy_count-replicate n));
        places = λ i. occurs-ids_below i n ∙ sym (lives_at-replicate n i);
        workers = length-replicate n;
        lives = started_lives;
      })
  where
    started_lives : Supervision.Inv n (lives_of (launch (record s { pool = start n })))
    started_lives = started-Inv n

-- From the moment at which `main` has started the pool, whatever the goroutines do in whatever order.
-- Single steps are: a call of a handler, the recovery or a sweeper for one job, a tick, a round of an
-- idle worker's loop up to the job, also cut in two at its look at the tokens, each statement of
-- `processJob` that changes state, a panic of the processor, each of the worker's deferred calls, a
-- deadline, what the supervisor does, and the calls of `main` at its end. Whatever the driver answers:
-- each row that the table had when it was opened is still there, in its order, the channels hold no
-- more than they have room for, the priority queue is sorted and the bucket holds at most its burst; a
-- worker's slot names the job that the worker has registered and not yet cleared and no other; the
-- gauge of busy workers is the number of those between its two changes; each worker has one goroutine,
-- or its death is signalled or noticed, or it was not restarted because the pool was stopped; and the
-- counter of living workers with the goroutines that have not counted themselves yet is the number of
-- the goroutines with those that have signalled their death and not counted themselves down.
pub launched-Runs :
    (read : Bool) (decoded : Option Config) (postgres_at sqlite_at : String → Source) (cfg : Config)
    (s : System) (m : Machine)
    → start_server read decoded postgres_at sqlite_at ≡ launched cfg s
    → Steps (backend cfg) (launch s) m
    → Sound m.system
      × Extends (opened_db (source postgres_at sqlite_at cfg)) m.system.router.db
      × Inv (count_of cfg.queue.workers) m
unfolding Starts launch
launched-Runs read decoded postgres_at sqlite_at cfg s m e h =
    let p : Starts read decoded postgres_at sqlite_at (launched cfg s) =
      subst (Starts read decoded postgres_at sqlite_at) e
        (start_server-Starts read decoded postgres_at sqlite_at) in
    let leads = Steps-Leads (backend cfg) (backend_contract cfg) (backend_asks cfg) h in
    (
      leads.sound p.4,
      subst (λ d. Extends d m.system.router.db) p.5 leads.rows,
      Steps-Inv (backend cfg) (backend_contract cfg) (backend_asks cfg) (count_of cfg.queue.workers)
          h (launch-Inv s (count_of cfg.queue.workers) p.3),
    )
