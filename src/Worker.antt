-- ===== src/Worker.antt =====
-- internal/worker/pool.go: the pool's workers with their preempt slots, `Preempt`, and the parts of
-- `processJob` before and after the call of the processor, between which other goroutines run.
-- The slices `workers` and `preemptQueue` have one entry for each worker and are kept as one list.
pub mod Preempt
pub mod Process
pub mod Lives
pub mod Slots
use rjq.Common.{
  ℕ, String, Bool, false, Option, none, some, List, [], ◌∷◌, replicate, if◌then◌else◌, ◌==◌,
  get_elem?, set,
}
use rjq.Common.Monad.{Result, ok, err, Method}
use rjq.Models.{Job, priority_normal}
use rjq.Errors.{Error, text, jobs_preempted}
use rjq.Storage.Interface.{Storage}
use rjq.Queue.RateLimited.{Delivery, delivered}
use rjq.Queue.Router.{Router, Pass}
use rjq.Queue.Router

-- A context with a timeout: `Err` is nil, Canceled or DeadlineExceeded, and the first cause stays.
pub data Context : Type 0 where
  live cancelled expired : Context

abbrev pub cancel : Context → Context
cancel live = cancelled
cancel cancelled = cancelled
cancel expired = expired

-- `workerState`: `current` is the job with the context that the cancel function belongs to, which
-- are set and cleared together. `preempt` is the entry of `preemptQueue`.
pub record Slot : Type 0 where
  pub current : Option (Job × Context)
  pub preempt : Option Job

abbrev pub idle : Slot
idle = record { current = none; preempt = none }

pub record Pool : Type 0 where
  pub slots : List Slot
  pub count : ℕ
  pub alive : ℕ
  pub done : Bool

-- The state that the goroutines share: the queues with their storage, and the pool.
pub record System : Type 0 where
  pub router : Router
  pub pool : Pool

-- `NewPool` and `Start`; no worker has counted itself.
abbrev pub start : ℕ → Pool
start workers = record { slots = replicate workers idle; count = workers; alive = 0; done = false }

-- `w.currentJob != nil && w.currentJob.Priority == PriorityNormal && p.preemptQueue[i] == nil`
abbrev pub normal_job : Option (Job × Context) → Option (Job × Context)
normal_job none = none
normal_job (some (j, x)) = if j.priority == priority_normal then some (j, x) else none

abbrev pub preemptable : Slot → Option (Job × Context)
preemptable s = elim s.preempt [ none ↦ normal_job s.current | some _ ↦ none ]

-- One round of the loop of `Preempt`, with what the later rounds find.
abbrev pub pick :
    Job
    → Slot
    → List Slot
    → Option (Job × Context)
    → Option (Job × List Slot)
    → Option (Job × List Slot)
pick job s slots (some (j, x)) rest =
    some (j, record { current = some (j, cancel x); preempt = some job } ∷ slots)
pick job s slots none none = none
pick job s slots none (some (j, slots')) = some (j, s ∷ slots')

-- The preempted job, and the slots with its context cancelled and the new job in its slot.
unfoldable pub preempt_slots : Job → List Slot → Option (Job × List Slot)
preempt_slots job [] = none
preempt_slots job (s ∷ slots) = pick job s slots (preemptable s) (preempt_slots job slots)

abbrev pub count_preempted : String → Router → Router
count_preempted q r = record r { db = record (r.db) { metrics = jobs_preempted q ∷ r.db.metrics } }

abbrev pub preempted : System → Option (Job × List Slot) → Result Error String × System
preempted s none = (err (text "no preemptable job found"), s)
preempted s (some (j, slots)) = (
  ok j.id,
  record s {
    router = count_preempted j.queue_type s.router;
    pool = record (s.pool) { slots = slots };
  },
)

unfoldable pub preempt : Job → Method System Error String
unfolding preempt_slots
preempt job s = preempted s (preempt_slots job s.pool.slots)

-- What worker `id` changes in its own slot.
abbrev pub change_slot : (Slot → Slot) → Option Slot → ℕ → List Slot → List Slot
change_slot f none id slots = slots
change_slot f (some s) id slots = set slots id (f s)

abbrev pub on_slot : ℕ → (Slot → Slot) → System → System
on_slot id f s = record s {
  pool = record (s.pool) { slots = change_slot f (get_elem? s.pool.slots id) id s.pool.slots };
}

abbrev pub on_router : {A : Type 0} → Method Router Error A → System → System
on_router m s = record s { router = (m s.router).1 }

-- The first lines of the worker's loop: the preempt slot is read and cleared.
abbrev pub slot_preempt : Option Slot → Option Job
slot_preempt none = none
slot_preempt (some s) = s.preempt

unfoldable pub take_preempted : ℕ → System → Option Job × System
take_preempted id s =
    (slot_preempt (get_elem? s.pool.slots id), on_slot id (λ x. record x { preempt = none }) s)

-- The job of one round of the loop: that of the slot, or what the router hands out.
abbrev pub or_dequeue : List Pass → Option Job × System → Delivery × System
or_dequeue passes (some job, s) = (delivered job, s)
or_dequeue passes (none, s) =
    let (d, r) = Router.dequeue_or_wait passes s.router in (d, record s { router = r })

unfoldable pub next_job : ℕ → List Pass → System → Delivery × System
unfolding take_preempted Router.dequeue_or_wait
next_job id passes s = or_dequeue passes (take_preempted id s)

-- One round of the loop: `none` is the exit of a worker whose pool has stopped.
abbrev pub goes_on : Delivery × System → Option Delivery × System
goes_on (d, s) = (some d, s)

unfoldable pub worker_round : ℕ → List Pass → System → Option Delivery × System
unfolding next_job
worker_round id passes s = if s.pool.done then (none, s) else goes_on (next_job id passes s)

-- The deferred call of `processJob`, which runs also where the processor panics.
unfoldable pub leave_job : ℕ → System → System
leave_job id s = on_slot id (λ x. record x { current = none }) s

-- How the processor returned: without an error, or with one.
pub data Outcome : Type 0 where
  succeeds fails : Outcome

abbrev pub context_of : Option Slot → Context
context_of none = live
context_of (some s) = elim s.current [ none ↦ live | some (j, x) ↦ x ]

module _ (store : Storage) where
  -- `processJob` up to the call of the processor; an error of `SetProcessing` is only logged.
  unfoldable pub begin_job : ℕ → Job → ℕ → System → System
  unfolding Router.set_processing
  begin_job id job now s =
      on_slot id (λ x. record x { current = some (job, live) })
        (on_router (Router.set_processing store job.id now) s)

  -- The rest of `processJob`; errors of the queue are only logged.
  abbrev pub settle : Outcome → Context → Job → ℕ → System → System
  settle succeeds x job now s = on_router (Router.ack store job.id now) s
  settle fails live job now s = on_router (Router.nack store job.id now) s
  settle fails expired job now s = on_router (Router.nack store job.id now) s
  settle fails cancelled job now s = on_router (Router.requeue store job.id now) s

  unfoldable pub finish_job : ℕ → Outcome → Job → ℕ → System → System
  unfolding Router.ack Router.nack Router.requeue leave_job
  finish_job id outcome job now s =
      leave_job id (settle outcome (context_of (get_elem? s.pool.slots id)) job now s)
