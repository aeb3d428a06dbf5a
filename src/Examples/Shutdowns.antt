-- ===== src/Examples/Shutdowns.antt =====
-- A shutdown that does not end: two workers see the one token that is left, one of them takes it, and
-- the other waits with its job when the router is closed.
use rjq.Common.{true, false, [], ◌∷◌, ◌<◌, refl}
use rjq.Storage.Sqlite.{sqlite}
use rjq.Storage.Contract.Sqlite.{sqlite_contract}
use rjq.Queue.Memory
use rjq.Queue.Sorted.{new_sorted_queue}
use rjq.Queue.Sorted
use rjq.Queue.RateLimited
use rjq.Queue.Router.{Pass}
use rjq.Queue.Router.Sound.Waits.{Considerate}
use rjq.Api.Routes.Asking.{sqlite_asks}
use rjq.Worker.{System, start, take_preempted}
use rjq.Worker.Lives.Supervision.{occurs}
use rjq.Server.{shut_down}
use rjq.Server.Goroutines.{
  Machine, launch, goes_to, with_router, poll_on, spotted, awaiting, taken, spots, polls_on, closes,
  Steps, here, next,
}
use rjq.Server.Goroutines.Stuck.{IsStuck, launch-IsStuck}
use rjq.Examples.Fixtures.{job_of, row_a, row_b, db}

abbrev limited : System
limited = record {
  router = record {
    db = db;
    fifo = record { jobs = []; capacity = 20; closed = false };
    priority = new_sorted_queue;
    rate_limited = record {
      memory = record { jobs = job_of row_a ∷ job_of row_b ∷ []; capacity = 20; closed = false };
      rate = 10;
      burst = 1;
      tokens = 1;
      stopped = false;
    };
  };
  pool = start 2;
}

abbrev pass : Pass
pass = record {
  wake = Sorted.elapsed;
  others = λ q. q;
  meanwhile = λ q. q;
  rate_expired = false;
  sleeps = [];
  fifo_expired = true;
}

considerate : Considerate pass
considerate = record {
  sorts = λ q h. h;
  fits = λ q h. h;
  within_burst = λ q h. h;
  drains = λ q h. h;
}

abbrev m0 : Machine
m0 = launch limited

abbrev m1 : Machine
m1 = goes_to 0 spotted m0 limited

abbrev m2 : Machine
m2 = goes_to 1 spotted m1 limited

abbrev m3 : Machine
m3 = goes_to 0 (taken (job_of row_a)) m2 (with_router limited (poll_on pass [] limited.router).1)

abbrev m4 : Machine
m4 =
    goes_to 1 (awaiting (job_of row_b)) m3
      (with_router m3.system (poll_on pass [] m3.system.router).1)

abbrev shut : System
shut = record m4.system {
  router = record m4.system.router {
    fifo = Memory.close m4.system.router.fifo;
    priority = Sorted.close m4.system.router.priority;
    rate_limited = record m4.system.router.rate_limited {
      memory = Memory.close m4.system.router.rate_limited.memory;
      stopped = true;
    };
  };
  pool = record m4.system.pool { done = true };
}

abbrev m5 : Machine
m5 = record m4 { system = shut }

to_m5 : Steps sqlite m0 m5
unfolding launch poll_on RateLimited.dequeue_or_wait RateLimited.available_tokens
    Sorted.dequeue_or_wait shut_down take_preempted
to_m5 =
    next m0 m4 m5
      (next m0 m3 m4
        (next m0 m2 m3
          (next m0 m1 m2
            (next m0 m0 m1 (here m0) (spots 0 pass m0 refl considerate refl refl refl refl))
            (spots 1 pass m1 refl considerate refl refl refl refl))
          (polls_on 0 pass [] (taken (job_of row_a)) m2 refl tt refl))
        (polls_on 1 pass [] (awaiting (job_of row_b)) m3 refl tt refl))
      (closes m4 shut refl)

m5-IsStuck : IsStuck sqlite sqlite_contract sqlite_asks 2 1 (job_of row_b) m5
unfolding launch poll_on RateLimited.dequeue_or_wait
m5-IsStuck = record { awaits = refl; drained = (refl, refl) }

launch-IsStuck_example :
    IsStuck sqlite sqlite_contract sqlite_asks 2 1 (job_of row_b) m5 × (0 < occurs 1 m5.running)
launch-IsStuck_example =
    launch-IsStuck sqlite sqlite_contract sqlite_asks 2 1 (job_of row_b) limited m5 m5 refl to_m5
      m5-IsStuck (here m5)
