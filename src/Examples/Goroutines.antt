-- ===== src/Examples/Goroutines.antt =====
-- The running server with all its goroutines: a job is recovered while the workers already run, one of
-- them takes it, and the processor panics on it.
use rjq.Common.{pos, true, false, some, [], ◌∷◌, ◌≡◌, refl, get_elem?}
use rjq.Common.Monad.{ok}
use rjq.Errors.{jobs_recovered}
use rjq.Storage.Database.{count_metric}
use rjq.Storage.Open.{opened_db}
use rjq.Storage.Sqlite.{sqlite}
use rjq.Storage.Sqlite.Lists.{list_pending_jobs}
use rjq.Queue.Delivery.{on_db, recover_job}
use rjq.Queue.Memory
use rjq.Queue.Sorted
use rjq.Queue.Router.{Pass, on_fifo, poll}
use rjq.Queue.Router
use rjq.Queue.Router.Sound.{Extends}
use rjq.Queue.Router.Sound.Waits.{Considerate}
use rjq.Models.{Job, pending}
use rjq.Worker.{fails, preempt, System, on_router, on_slot, worker_round, live}
use rjq.Server.{backend, count_of}
use rjq.Server.Invariant.{Sound}
use rjq.Server.Moves.{lists, recovers_fifo}
use rjq.Server.Goroutines.{
  Steps, returns, returned, Machine, launch, goes_to, taken, marked, registered, processing,
  busy_yet, moves, goes_round, marks, registers, counts, panics, here, next,
}
use rjq.Server.Goroutines.Consistency.{Inv}
use rjq.Server.Build.{backend_contract, backend_asks}
use rjq.Server.Goroutines.Reached.{launched-Runs}
use rjq.Server.Goroutines.Preempting.{Interrupts, preempt-Interrupts}
use rjq.Examples.Fixtures.{job_of, row_of, row_a}
use rjq.Examples.Servers.{config, stored_at, started, starts_pool}

-- The first job of the recovery is in the channel when a request comes.
abbrev launched : System
launched = started

abbrev listed : System
listed = on_router (on_fifo (on_db sqlite.list_pending_jobs)) launched

abbrev recovered_a : System
recovered_a =
    on_router
      (on_fifo (
        recover_job sqlite Memory.enqueue Memory.skips (count_metric jobs_recovered) 50
          (job_of row_a)))
      listed

abbrev pass : Pass
pass = record {
  wake = Sorted.elapsed;
  others = λ q. q;
  meanwhile = λ q. q;
  rate_expired = true;
  sleeps = [];
  fifo_expired = false;
}

considerate : Considerate pass
considerate = record {
  sorts = λ q h. h;
  fits = λ q h. h;
  within_burst = λ q h. h;
  drains = λ q h. h;
}

abbrev m0 : Machine
m0 = launch launched

abbrev m1 : Machine
m1 = record m0 { system = listed }

abbrev m2 : Machine
m2 = record m1 { system = recovered_a }

abbrev m3 : Machine
m3 = goes_to 1 (taken (job_of row_a)) m2 (worker_round 1 (pass ∷ []) m2.system).1

abbrev m4 : Machine
m4 =
    goes_to 1 (marked (job_of row_a)) m3 (on_router (Router.set_processing sqlite "a" 60) m3.system)

abbrev m5 : Machine
m5 =
    goes_to 1 (registered (job_of row_a)) m4
      (on_slot 1 (λ x. record x { current = some (job_of row_a, live) }) m4.system)

abbrev m6 : Machine
m6 = record (goes_to 1 (processing (job_of row_a)) m5 m5.system) { busy = pos 1 }

abbrev m7 : Machine
m7 = goes_to 1 (busy_yet true (job_of row_a)) m6 m6.system

-- Worker 1 has taken the job and is in `Process`.
to_m6 : Steps (backend config) m0 m6
unfolding launch backend list_pending_jobs worker_round Router.dequeue_or_wait poll recover_job
    Memory.enqueue
to_m6 =
    next m0 m5 m6
      (next m0 m4 m5
        (next m0 m3 m4
          (next m0 m2 m3
            (next m0 m1 m2 (next m0 m0 m1 (here m0) (moves m0 listed (lists launched)))
              (moves m1 recovered_a (recovers_fifo 50 (job_of row_a) listed)))
            (goes_round 1 (pass ∷ []) (taken (job_of row_a)) m2 refl (considerate, tt) refl))
          (marks 1 (job_of row_a) 60 m3 refl))
        (registers 1 (job_of row_a) m4 refl))
      (counts 1 (job_of row_a) m5 refl)

at_m6 : get_elem? m6.phases 1 ≡ some (processing (job_of row_a))
unfolding launch
at_m6 = refl

launched-Runs_example :
    Sound m7.system
    × Extends (opened_db (stored_at "")) m7.system.router.db
    × Inv (count_of config.queue.workers) m7
launched-Runs_example =
    launched-Runs true (some config) stored_at stored_at config launched m7 starts_pool
      (next m0 m6 m7 to_m6 (panics 1 (job_of row_a) m6 at_m6))

-- Its job is normal, so that a super-urgent one interrupts it.
abbrev super_urgent : Job
super_urgent = job_of (row_of "d" 3 pending 0 40)

abbrev interrupted : System
interrupted = (preempt super_urgent m6.system).1

m6_interrupted : preempt super_urgent m6.system ≡ (ok "a", interrupted)
unfolding preempt launch worker_round Router.dequeue_or_wait poll recover_job Memory.enqueue
    Router.set_processing
m6_interrupted = refl

preempt-Interrupts_example :
    Interrupts
      (backend config)
      super_urgent
      "a"
      m6
      (record m6 { system = interrupted })
      (goes_to 1 (returned fails (job_of row_a)) (record m6 { system = interrupted }) interrupted)
preempt-Interrupts_example =
    preempt-Interrupts (backend config) (backend_contract config) (backend_asks config) 4 launched
      m6 super_urgent "a" interrupted _ refl to_m6 m6_interrupted
      (next (record m6 { system = interrupted }) (record m6 { system = interrupted }) _
        (here (record m6 { system = interrupted }))
        (returns 1 (job_of row_a) fails (record m6 { system = interrupted }) at_m6))

-- The end of `main` finds the job still in `Process`.
abbrev shut : System
shut = record (m6.system) {
  router = record (m6.system.router) {
    fifo = Memory.close m6.system.router.fifo;
    priority = Sorted.close m6.system.router.priority;
    rate_limited = record (m6.system.router.rate_limited) {
      memory = Memory.close m6.system.router.rate_limited.memory;
      stopped = true;
    };
  };
  pool = record (m6.system.pool) { done = true };
}

abbrev m_shut : Machine
m_shut = record m6 { system = shut }
