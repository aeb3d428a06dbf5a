-- ===== src/Queue/Memory/Threads.antt =====
-- internal/queue/memory_queue.go: `Enqueue`, the receives and `Close` as the goroutines run them,
-- with the mutex, the wait group and the two channels. A critical section is one step, and so is
-- what ends a `select`.
pub mod Shutdown
pub mod Ending
use rjq.Common.{
  ℕ, suc, ◌-◌, Bool, true, false, List, [], ◌∷◌, ◌++◌, ◌≡◌, ◌<◌, if◌then◌else◌, length,
}
use rjq.Models.{Job}

-- The goroutine that runs `Close`: none yet, in `wg.Wait()`, or past it.
pub data Closer : Type 0 where
  absent waiting over : Closer

-- `jobs` is the buffer of the channel, `senders` the jobs of the calls of `Enqueue` in their
-- `select`, `wg` the counter of the wait group, and `receivers` the number of goroutines that call
-- `Dequeue` or `DequeueOrWait`, again and again. `accepted` and `received` are the jobs that were
-- sent and handed out so far; `panicked` says that a closed channel was sent on or closed again.
pub record Threads : Type 0 where
  pub jobs : List Job
  pub capacity : ℕ
  pub closed : Bool
  pub done : Bool
  pub jobs_closed : Bool
  pub senders : List Job
  pub wg : ℕ
  pub receivers : ℕ
  pub closer : Closer
  pub accepted : List Job
  pub received : List Job
  pub panicked : Bool

unfoldable pub new_threads : (buffer_size receivers : ℕ) → Threads
new_threads buffer_size receivers = record {
  jobs = [];
  capacity = buffer_size;
  closed = false;
  done = false;
  jobs_closed = false;
  senders = [];
  wg = 0;
  receivers = receivers;
  closer = absent;
  accepted = [];
  received = [];
  panicked = false;
}

-- The critical section of `Enqueue`, in a queue that is open and in one that is closed.
unfoldable pub enter : Job → Threads → Threads
enter job s = if s.closed then s else record s { senders = s.senders ++ (job ∷ []); wg = suc s.wg }

-- `q.jobs <- job`, and the deferred `wg.Done()`.
unfoldable pub send : Job → List Job → Threads → Threads
send job others s =
    if s.jobs_closed
    then record s { senders = others; wg = s.wg - 1; panicked = true }
    else record s {
      jobs = s.jobs ++ (job ∷ []);
      senders = others;
      wg = s.wg - 1;
      accepted = s.accepted ++ (job ∷ []);
    }

-- `<-q.done` or the timer, and the deferred `wg.Done()`.
unfoldable pub give_up : List Job → Threads → Threads
give_up others s = record s { senders = others; wg = s.wg - 1 }

-- The critical section of `Close`.
unfoldable pub begin_close : Threads → Threads
begin_close s = if s.closed then s else record s { closed = true; done = true; closer = waiting }

-- `close(q.jobs)`
unfoldable pub end_close : Threads → Threads
end_close s =
    if s.jobs_closed
    then record s { panicked = true; closer = over }
    else record s { jobs_closed = true; closer = over }

-- `<-q.jobs`, with a job.
unfoldable pub receive_job : Job → List Job → Threads → Threads
receive_job job rest s = record s { jobs = rest; received = s.received ++ (job ∷ []) }

-- A send takes place where the buffer has room, or panics on a closed channel. `<-q.done` is there
-- once `done` is closed, the timer at any time. `wg.Wait()` returns at 0. A receive takes a goroutine
-- that calls for a job. Such a goroutine may come as long as the queue is open, and stop at any time,
-- as a worker does when the pool is stopped. A receive from an empty channel that is closed changes nothing and is no step.
pub data Step : Threads → Threads → Type 0 where
  enters : (job : Job) (s : Threads) → s.closed ≡ false → Step s (enter job s)
  sends :
      (pre post : List Job) (job : Job) (s : Threads)
      → s.senders ≡ pre ++ (job ∷ post)
      → length s.jobs < s.capacity
      → Step s (send job (pre ++ post) s)
  panics :
      (pre post : List Job) (job : Job) (s : Threads)
      → s.senders ≡ pre ++ (job ∷ post)
      → s.jobs_closed ≡ true
      → Step s (send job (pre ++ post) s)
  gives_up :
      (pre post : List Job) (job : Job) (s : Threads)
      → s.senders ≡ pre ++ (job ∷ post)
      → Step s (give_up (pre ++ post) s)
  receives :
      (others : ℕ) (job : Job) (rest : List Job) (s : Threads)
      → s.receivers ≡ suc others
      → s.jobs ≡ job ∷ rest
      → Step s (receive_job job rest s)
  joins : (s : Threads) → s.closed ≡ false → Step s (record s { receivers = suc s.receivers })
  stops :
      (others : ℕ) (s : Threads)
      → s.receivers ≡ suc others
      → Step s (record s { receivers = others })
  closes : (s : Threads) → s.closed ≡ false → Step s (begin_close s)
  ends : (s : Threads) → s.closer ≡ waiting → s.wg ≡ 0 → Step s (end_close s)

-- The states that the goroutines come to, in a number of steps.
pub data Steps : ℕ → Threads → Threads → Type 0 where
  here : (s : Threads) → Steps 0 s s
  next : (n : ℕ) (s t u : Threads) → Steps n s t → Step t u → Steps (suc n) s u
