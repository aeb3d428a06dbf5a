-- ===== src/Server/Goroutines.antt =====
-- cmd/server/main.go with internal/worker/pool.go: the goroutines of the running server in one state,
-- with the calls of the handlers as single steps, and a round of an idle worker's loop as one or two. A
-- worker that has taken a job goes through `processJob` statement by statement, whose deferred calls run also where the processor panics; then its death is signalled, and `supervise`
-- starts it again.
pub mod Phases
pub mod Asking
pub mod Consistency
pub mod Supervised
pub mod Reached
pub mod Waiting
pub mod Preempting
pub mod Ranks
pub mod Nearing
pub mod Shutdown
pub mod Stuck
use rjq.Common.{
  ℤ, pos, succ, pred, ℕ, suc, Bool, true, false, Option, none, some, List, [], ◌∷◌, ◌++◌, ◌≡◌, All,
  replicate, get_elem?, set, ltb,
}
use rjq.Models.{Job}
use rjq.Storage.Interface.{Storage}
use rjq.Queue.RateLimited.{Delivery, delivered, nothing, blocked, holding}
use rjq.Queue.RateLimited
use rjq.Queue.Sorted
use rjq.Queue.Router.{Router, Pass, or_fifo}
use rjq.Queue.Router
use rjq.Queue.Router.Sound.Waits.{Considerate}
use rjq.Worker.{
  System, Context, live, cancelled, expired, Outcome, on_router, on_slot, worker_round, context_of,
  settle, leave_job, take_preempted,
}
use rjq.Worker.Lives.{
  Supervisor, watching, restarting, gone, Lives, ids_below, end_worker, restart_worker, count_up,
  count_down,
}
use rjq.Server.{shut_down}
use rjq.Server.Moves.{Moves}

-- Where a worker's goroutine is: at the top of its loop; in `DequeueOrWait` of the router, where it has
-- seen a token and is about to ask the rate-limited queue, or has a job of that queue and waits for a
-- token; in `processJob`, before `SetProcessing`,
-- before the lock under which it registers its job, before `WorkersBusy.Inc`, in `Process`, before
-- `ctx.Err()`, before the call that settles the job, and before the two deferred calls, which run
-- also in a panic; in the deferred calls of `worker`; or over.
pub data Phase : Type 0 where
  looking spotted : Phase
  awaiting : Job → Phase
  taken marked registered processing : Job → Phase
  returned : Outcome → Job → Phase
  judged : Outcome → Context → Job → Phase
  busy_yet registered_yet : (panicked : Bool) → Job → Phase
  dying over : Phase

-- `busy` is the gauge `WorkersBusy`; the fields from `running` on are those of `Lives`.
pub record Machine : Type 0 where
  pub system : System
  pub phases : List Phase
  pub busy : ℤ
  pub running : List ℕ
  pub worker_died : List ℕ
  pub supervisor : Supervisor
  pub dropped : Bool
  pub starting : ℕ
  pub leaving : ℕ

abbrev pub lives_of : Machine → Lives
lives_of m = record {
  running = m.running;
  worker_died = m.worker_died;
  supervisor = m.supervisor;
  count = m.system.pool.count;
  alive = m.system.pool.alive;
  starting = m.starting;
  leaving = m.leaving;
  dropped = m.dropped;
  done = m.system.pool.done;
}

-- The state after a step of `Lives` that does not stop the pool.
abbrev pub with_lives : Machine → Lives → Machine
with_lives m l = record m {
  system = record (m.system) { pool = record (m.system.pool) { alive = l.alive } };
  running = l.running;
  worker_died = l.worker_died;
  supervisor = l.supervisor;
  dropped = l.dropped;
  starting = l.starting;
  leaving = l.leaving;
}

-- After `pool.Start()`; no worker has counted itself.
unfoldable pub launch : System → Machine
unfolding ids_below
launch s = record {
  system = s;
  phases = replicate s.pool.count looking;
  busy = pos 0;
  running = ids_below s.pool.count;
  worker_died = [];
  supervisor = watching;
  dropped = false;
  starting = s.pool.count;
  leaving = 0;
}

abbrev pub goes_to : ℕ → Phase → Machine → System → Machine
goes_to id p m s = record m { system = s; phases = set m.phases id p }

-- Where a worker is after it has asked the queues.
abbrev pub after_delivery : Delivery → Option Phase
after_delivery (delivered job) = some (taken job)
after_delivery nothing = some looking
after_delivery blocked = none
after_delivery (holding job) = some (awaiting job)

abbrev pub after_round : Option Delivery → Option Phase
after_round none = some dying
after_round (some d) = after_delivery d

-- The rest of a pass of `DequeueOrWait` from the call of the rate-limited queue on, and the passes that
-- follow it.
abbrev pub polled_on : List Pass → Delivery × Router → Delivery × Router
polled_on passes (nothing, r) = Router.dequeue_or_wait passes r
polled_on passes (delivered job, r) = (delivered job, r)
polled_on passes (blocked, r) = (blocked, r)
polled_on passes (holding job, r) = (holding job, r)

unfoldable pub poll_on : Pass → List Pass → Router → Delivery × Router
unfolding RateLimited.dequeue_or_wait Router.dequeue_or_wait
poll_on p passes r =
    polled_on passes
      (or_fifo p r (RateLimited.dequeue_or_wait p.rate_expired p.sleeps r.rate_limited))

abbrev pub with_router : System → Router → System
with_router s r = record s { router = r }

abbrev pub after_job : Bool → Phase
after_job true = dying
after_job false = looking

-- The deadline of a context passes.
abbrev pub expire : Context → Context
expire live = expired
expire cancelled = cancelled
expire expired = expired

abbrev pub expire_current : Option (Job × Context) → Option (Job × Context)
expire_current none = none
expire_current (some (j, x)) = some (j, expire x)

-- One step of a goroutine.
pub data Step (store : Storage) : Machine → Machine → Type 0 where
  moves :
      (m : Machine) (s : System) → Moves store m.system s → Step store m (record m { system = s })
  goes_round :
      (id : ℕ) (passes : List Pass) (p : Phase) (m : Machine)
      → get_elem? m.phases id ≡ some looking
      → All Considerate passes
      → after_round (worker_round id passes m.system).0 ≡ some p
      → Step store m (goes_to id p m (worker_round id passes m.system).1)
  spots :
      (id : ℕ) (p : Pass) (m : Machine)
      → get_elem? m.phases id ≡ some looking
      → Considerate p
      → m.system.pool.done ≡ false
      → (take_preempted id m.system).0 ≡ none
      → (Sorted.dequeue_or_wait p.wake p.others m.system.router.priority).0 ≡ none
      → ltb 0 (RateLimited.available_tokens m.system.router.rate_limited) ≡ true
      → Step store m (
          goes_to id spotted m (
            with_router m.system (record (m.system.router) {
              priority = (Sorted.dequeue_or_wait p.wake p.others m.system.router.priority).1;
            })))
  polls_on :
      (id : ℕ) (p : Pass) (passes : List Pass) (q : Phase) (m : Machine)
      → get_elem? m.phases id ≡ some spotted
      → All Considerate passes
      → after_delivery (poll_on p passes m.system.router).0 ≡ some q
      → Step store m (goes_to id q m (with_router m.system (poll_on p passes m.system.router).1))
  gets_token :
      (id : ℕ) (job : Job) (m : Machine)
      → get_elem? m.phases id ≡ some (awaiting job)
      → (RateLimited.take_token job [] m.system.router.rate_limited).0 ≡ delivered job
      → Step store m (
          goes_to id (taken job) m (
            with_router m.system (record (m.system.router) {
              rate_limited = (RateLimited.take_token job [] m.system.router.rate_limited).1;
            })))
  marks :
      (id : ℕ) (job : Job) (now : ℕ) (m : Machine)
      → get_elem? m.phases id ≡ some (taken job)
      → Step store m
          (goes_to id (marked job) m (on_router (Router.set_processing store job.id now) m.system))
  registers :
      (id : ℕ) (job : Job) (m : Machine)
      → get_elem? m.phases id ≡ some (marked job)
      → Step store m (
          goes_to id
            (registered job)
            m
            (on_slot id (λ x. record x { current = some (job, live) }) m.system))
  counts :
      (id : ℕ) (job : Job) (m : Machine)
      → get_elem? m.phases id ≡ some (registered job)
      → Step store m (record (goes_to id (processing job) m m.system) { busy = succ m.busy })
  returns :
      (id : ℕ) (job : Job) (o : Outcome) (m : Machine)
      → get_elem? m.phases id ≡ some (processing job)
      → Step store m (goes_to id (returned o job) m m.system)
  panics :
      (id : ℕ) (job : Job) (m : Machine)
      → get_elem? m.phases id ≡ some (processing job)
      → Step store m (goes_to id (busy_yet true job) m m.system)
  judges :
      (id : ℕ) (job : Job) (o : Outcome) (m : Machine)
      → get_elem? m.phases id ≡ some (returned o job)
      → Step store m
          (goes_to id (judged o (context_of (get_elem? m.system.pool.slots id)) job) m m.system)
  settles :
      (id : ℕ) (job : Job) (o : Outcome) (x : Context) (now : ℕ) (m : Machine)
      → get_elem? m.phases id ≡ some (judged o x job)
      → Step store m (goes_to id (busy_yet false job) m (settle store o x job now m.system))
  uncounts :
      (id : ℕ) (panicked : Bool) (job : Job) (m : Machine)
      → get_elem? m.phases id ≡ some (busy_yet panicked job)
      → Step store m
          (record (goes_to id (registered_yet panicked job) m m.system) { busy = pred m.busy })
  clears :
      (id : ℕ) (panicked : Bool) (job : Job) (m : Machine)
      → get_elem? m.phases id ≡ some (registered_yet panicked job)
      → Step store m (goes_to id (after_job panicked) m (leave_job id m.system))
  ends :
      (id : ℕ) (pre post : List ℕ) (m : Machine)
      → get_elem? m.phases id ≡ some dying
      → m.running ≡ pre ++ (id ∷ post)
      → Step store m (
          let n = with_lives m (end_worker id (pre ++ post) (lives_of m)) in
          goes_to id over n n.system)
  arrives :
      (others : ℕ) (m : Machine)
      → m.starting ≡ suc others
      → Step store m (with_lives m (count_up others (lives_of m)))
  departs :
      (others fewer : ℕ) (m : Machine)
      → m.leaving ≡ suc others
      → m.system.pool.alive ≡ suc fewer
      → Step store m (with_lives m (count_down others fewer (lives_of m)))
  expires :
      (id : ℕ) (m : Machine)
      → Step store m (record m {
        system = on_slot id (λ x. record x { current = expire_current x.current }) m.system;
      })
  notices :
      (id : ℕ) (rest : List ℕ) (m : Machine)
      → m.supervisor ≡ watching
      → m.worker_died ≡ id ∷ rest
      → Step store m (record m { worker_died = rest; supervisor = restarting id })
  restarts :
      (id : ℕ) (m : Machine)
      → m.supervisor ≡ restarting id
      → Step store m
          (let n = with_lives m (restart_worker id (lives_of m)) in goes_to id looking n n.system)
  leaves : (m : Machine) → m.system.pool.done ≡ true → Step store m (record m { supervisor = gone })
  closes :
      (m : Machine) (s : System)
      → shut_down m.system ≡ some s
      → Step store m (record m { system = s })

pub data Steps (store : Storage) : Machine → Machine → Type 0 where
  here : (m : Machine) → Steps store m m
  next : (l m n : Machine) → Steps store l m → Step store m n → Steps store l n
