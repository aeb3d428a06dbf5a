-- ===== src/Examples/Queues.antt =====
-- The theorems on the queues in memory, at queues of two and three jobs.
use rjq.Common.{All, true, false, List, [], ◌∷◌, ◌≡◌, ◌≤◌, ◌+◌, refl, arith}
use rjq.Common.Monad.{ok}
use rjq.Models.{Job, pending}
use rjq.Storage.Rows.{order_by}
use rjq.Storage.Sqlite.{sqlite}
use rjq.Storage.Contract.Sqlite.{sqlite_contract}
use rjq.Queue.Sorted.{new_sorted_queue, insert_locked}
use rjq.Queue.Sorted
use rjq.Queue.Sorted.Order.{IsSorted, Placed, insert_locked-Placed}
use rjq.Queue.Sorted.Calls.{Call, Inv, run, start, enqueues, pops, closes, run-start-Inv}
use rjq.Queue.Memory
use rjq.Queue.Memory.Sweeps.{again_all, unstick_all, Swept, sweep-Swept}
use rjq.Queue.Sorted.Refinement.{replies, promises, new_sorted_queue-promises}
use rjq.Queue.Memory.Channel.{Restarted, recover-Restarted, run-Inv}
use rjq.Queue.RateLimited.Tokens.{tick, dequeues, dequeues_or_waits, run_bounded}
use rjq.Storage.Rows.Laws.{ids}
use rjq.Queue.Interface.{memory_queue, sorted_queue, rate_limited_queue, router_queue}
use rjq.Queue.Interface.Promises.{Promises}
use rjq.Queue.Interface.Ordered
use rjq.Queue.Interface.Polling
use rjq.Queue.Interface.Routing.{every_queue-Promises}
use rjq.Queue.Router.{Pass, poll, nack}
use rjq.Queue.RateLimited
use rjq.Queue.Router
use rjq.Queue.Router.Calls.{poll-Serves, nack_to_fifo}
use rjq.Queue.Delivery.Repeats.{Sorts}
use rjq.Queue.Router.Recovery.{Roomy, Repeated, recover-Repeated}
use rjq.Examples.Fixtures.{
  row_of, job_of, row_a, row_b, db-Ready, a-Stored, backed, bucket, router, priority_queue,
}

abbrev jobs : List Job
jobs = priority_queue.jobs

abbrev late_urgent : Job
late_urgent = job_of (row_of "d" 2 pending 0 40)

pub jobs-IsSorted : IsSorted jobs
jobs-IsSorted = ((ground arith, tt), (tt, tt))

insert_locked-Placed_example : Placed late_urgent jobs (insert_locked late_urgent jobs)
insert_locked-Placed_example = insert_locked-Placed late_urgent jobs jobs-IsSorted

-- A late urgent job stands behind the earlier urgent one and ahead of the normal one.
insert_locked_late : insert_locked late_urgent jobs ≡ job_of row_b ∷ late_urgent ∷ job_of row_a ∷ []
unfolding insert_locked
insert_locked_late = refl

abbrev history : List Sorted.Calls.Call
history =
    enqueues (job_of row_a) ∷ enqueues (job_of row_b) ∷ pops ∷ closes ∷ enqueues late_urgent ∷ []

run-start-Inv_example : Inv (run start history)
run-start-Inv_example = run-start-Inv history

abbrev unfinished : List Job
unfinished = job_of row_b ∷ job_of row_a ∷ []

recover-Restarted_example : Restarted backed unfinished (Memory.recover sqlite 50 backed)
unfolding order_by
recover-Restarted_example =
    recover-Restarted sqlite sqlite_contract 50 backed unfinished db-Ready refl refl (omega arith)

abbrev new_run : Memory.Channel.Run
new_run = record { queue = Memory.new_memory_queue 1; accepted = []; served = [] }

abbrev fifo_history : List Memory.Channel.Call
fifo_history =
    Memory.Channel.enqueues (job_of row_a)
    ∷ Memory.Channel.enqueues (job_of row_b)
    ∷ Memory.Channel.receives
    ∷ Memory.Channel.closes
    ∷ []

run-Inv_example : Memory.Channel.Inv (Memory.Channel.run new_run fifo_history)
run-Inv_example = run-Inv new_run fifo_history (record { order = refl; fits = omega arith })

abbrev bucket_history : List RateLimited.Tokens.Call
bucket_history = dequeues (0 ∷ []) ∷ tick ∷ dequeues_or_waits false (0 ∷ 1 ∷ []) ∷ []

run_bounded_example :
    let (n, q') = RateLimited.Tokens.run bucket_history bucket in
    (q'.tokens + n ≤ 3) × (q'.tokens ≤ q'.burst) × (q'.burst ≡ 2)
run_bounded_example = run_bounded bucket_history bucket (omega arith)

-- Another worker takes the tokens between the look and the call.
abbrev pass : Pass
pass = record {
  wake = Sorted.elapsed;
  others = λ q. q;
  meanwhile = λ q. record q { tokens = 0 };
  rate_expired = false;
  sleeps = [];
  fifo_expired = true;
}

poll-Serves_example : Router.Calls.Serves pass router (poll pass router)
poll-Serves_example = poll-Serves pass router

nack_to_fifo_example :
    let (x, r') = nack sqlite "a" 50 router in
    (x ≡ ok tt)
    × (r'.fifo.jobs ≡ record (job_of row_a) { status = pending; retry_count = 1 } ∷ [])
    × (r'.priority ≡ router.priority)
    × (r'.rate_limited ≡ router.rate_limited)
nack_to_fifo_example =
    nack_to_fifo sqlite sqlite_contract "a" 50 row_a (job_of row_a) router a-Stored (omega arith)
      refl (omega arith)

abbrev calls : List Call
calls = enqueues (job_of row_a) ∷ enqueues (job_of row_b) ∷ pops ∷ closes ∷ pops ∷ []

new_sorted_queue-promises_example :
    replies calls new_sorted_queue ≡ promises calls (record { arrivals = []; closed = false })
new_sorted_queue-promises_example = new_sorted_queue-promises calls

-- Of the table of three jobs the pending one is enqueued again, and so is the stuck one.
sweep-Swept_example :
    Swept
      (again_all 600_000_000_100 unfinished)
      (unstick_all 600_000_000_100 unfinished backed.db.rows)
      backed
      (Memory.sweep sqlite 600_000_000_100 backed)
unfolding order_by
sweep-Swept_example =
    sweep-Swept sqlite sqlite_contract 600_000_000_100 backed unfinished db-Ready refl refl
      (ground arith)

swept_jobs :
    again_all 600_000_000_100 unfinished
    ≡ record (job_of row_b) { status = pending } ∷ job_of row_a ∷ []
swept_jobs = refl

router-Sorts : Sorts sqlite sqlite_contract router.db
router-Sorts = record { ready_db = db-Ready; keyed = ((refl, (refl, tt)), ((refl, tt), (tt, tt))) }

router-Roomy : Roomy router
router-Roomy = record {
  fifo_open = refl;
  priority_open = refl;
  rate_limited_open = refl;
  fifo_room = ground arith;
  rate_limited_room = ground arith;
}

recover-Repeated_example :
    let (x, after) = Router.recover sqlite 50 router in (x ≡ ok tt) × Repeated router after
recover-Repeated_example =
    recover-Repeated sqlite sqlite_contract 50 router router-Sorts router-Roomy

every_queue-Promises_example :
    Promises (memory_queue sqlite) (λ s. ids s.db.rows) (λ v. Unit {0}) (λ w. Unit {0})
    × Promises (sorted_queue sqlite) (λ s. ids s.db.rows) Ordered.AllCalm (λ w. Ordered.IsCalm w.1)
    × Promises (rate_limited_queue sqlite) (λ s. ids s.db.rows) (λ v. Unit {0}) (λ w. Unit {0})
    × Promises (router_queue sqlite) (λ r. ids r.db.rows) (All Polling.IsCalm) (All Polling.IsCalm)
every_queue-Promises_example = every_queue-Promises sqlite sqlite_contract
