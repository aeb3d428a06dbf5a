-- ===== src/Worker/Lives.antt =====
-- internal/worker/pool.go: the lives of the workers' goroutines. A worker ends by a panic or because
-- the pool has stopped, in both cases through its deferred calls, and `supervise` starts it again.
pub mod Supervision
pub mod Restarts
use rjq.Common.{
  ℕ, suc, zero, Bool, true, false, List, [], ◌∷◌, ◌++◌, ◌≡◌, if◌then◌else◌, ltb, length,
}

-- The goroutine of `supervise`: in its `select`, in the second of backoff before the restart of a
-- worker, or ended.
pub data Supervisor : Type 0 where
  watching : Supervisor
  restarting : (id : ℕ) → Supervisor
  gone : Supervisor

-- `worker_died` is the buffer of the channel, which has room for `count` entries; `dropped` says that
-- a death signal found it full. `running` are the workers that have a goroutine, from the `go` to the
-- death signal. `alive` is the counter; `starting` counts the goroutines that have not come to their
-- `aliveWorkers.Add(1)`, and `leaving` those past the death signal that have not come to the deferred
-- `aliveWorkers.Add(-1)`.
pub record Lives : Type 0 where
  pub running : List ℕ
  pub worker_died : List ℕ
  pub supervisor : Supervisor
  pub count : ℕ
  pub alive : ℕ
  pub starting : ℕ
  pub leaving : ℕ
  pub dropped : Bool
  pub done : Bool

-- The ids that `Start` gives out.
unfoldable pub ids_below : ℕ → List ℕ
ids_below zero = []
ids_below (suc n) = ids_below n ++ (n ∷ [])

-- After `Start`; no worker has counted itself.
unfoldable pub started : ℕ → Lives
started count = record {
  running = ids_below count;
  worker_died = [];
  supervisor = watching;
  count = count;
  alive = 0;
  starting = count;
  leaving = 0;
  dropped = false;
  done = false;
}

-- The send on `workerDied`, which does not block.
unfoldable pub signal_death : ℕ → Lives → Lives
signal_death id s =
    if ltb (length s.worker_died) s.count
    then record s { worker_died = s.worker_died ++ (id ∷ []) }
    else record s { dropped = true }

-- The deferred calls of a worker up to the one that counts it down.
unfoldable pub end_worker : ℕ → List ℕ → Lives → Lives
unfolding signal_death
end_worker id others s =
    let t = signal_death id s in record t { running = others; leaving = suc t.leaving }

-- `go p.worker(id)` of `supervise`.
unfoldable pub restart_worker : ℕ → Lives → Lives
restart_worker id s = record s {
  running = id ∷ s.running;
  starting = suc s.starting;
  supervisor = watching;
}

-- The first statement of `worker`, and its last deferred call.
unfoldable pub count_up : ℕ → Lives → Lives
count_up others s = record s { starting = others; alive = suc s.alive }

unfoldable pub count_down : (others fewer : ℕ) → Lives → Lives
count_down others fewer s = record s { leaving = others; alive = fewer }

-- One step of a worker, of the supervisor, or of `Stop`.
pub data Step : Lives → Lives → Type 0 where
  panics :
      (pre post : List ℕ) (id : ℕ) (s : Lives)
      → s.running ≡ pre ++ (id ∷ post)
      → Step s (end_worker id (pre ++ post) s)
  exits :
      (pre post : List ℕ) (id : ℕ) (s : Lives)
      → s.done ≡ true
      → s.running ≡ pre ++ (id ∷ post)
      → Step s (end_worker id (pre ++ post) s)
  arrives : (others : ℕ) (s : Lives) → s.starting ≡ suc others → Step s (count_up others s)
  departs :
      (others fewer : ℕ) (s : Lives)
      → s.leaving ≡ suc others
      → s.alive ≡ suc fewer
      → Step s (count_down others fewer s)
  notices :
      (id : ℕ) (rest : List ℕ) (s : Lives)
      → s.supervisor ≡ watching
      → s.worker_died ≡ id ∷ rest
      → Step s (record s { worker_died = rest; supervisor = restarting id })
  restarts : (id : ℕ) (s : Lives) → s.supervisor ≡ restarting id → Step s (restart_worker id s)
  leaves : (s : Lives) → s.done ≡ true → Step s (record s { supervisor = gone })
  stops : (s : Lives) → s.done ≡ false → Step s (record s { done = true })

-- The states that a pool comes to.
pub data Steps : Lives → Lives → Type 0 where
  here : (s : Lives) → Steps s s
  next : (s t u : Lives) → Steps s t → Step t u → Steps s u
