-- ===== src/Queue/Sorted/Waiters.antt =====
-- internal/queue/sorted_que.go: `Enqueue` and `Dequeue` as the goroutines run them. Between the
-- mutex and the `signal` channel other goroutines run. A caller that has got a job is gone; who
-- calls again is a new caller.
pub mod Wakeups
pub mod Losses
use rjq.Common.{ℕ, suc, ◌+◌, ◌≤◌, true, false, List, [], ◌∷◌, ◌++◌, ◌≡◌}
use rjq.Models.{Job}
use rjq.Queue.Sorted.{SortedQueue, new_sorted_queue, insert_locked}

-- `unsignalled` counts the calls of `Enqueue` that have inserted a job and not come to the send on
-- `signal`. Of the callers of `Dequeue`, the `awake` ones are about to look into the queue, and the
-- `asleep` ones are in the `select` after they found it empty. `handed` are the jobs handed out.
pub record Waiters : Type 0 where
  pub queue : SortedQueue
  pub unsignalled : ℕ
  pub awake : ℕ
  pub asleep : ℕ
  pub handed : List Job

unfoldable pub new_waiters : ℕ → Waiters
new_waiters callers = record {
  queue = new_sorted_queue;
  unsignalled = 0;
  awake = callers;
  asleep = 0;
  handed = [];
}

-- `insertLocked`, under the mutex.
unfoldable pub insert_job : Job → Waiters → Waiters
insert_job job s = record s {
  queue = record (s.queue) { jobs = insert_locked job s.queue.jobs };
  unsignalled = suc s.unsignalled;
}

-- The send on `signal`, which is dropped when the channel is full.
unfoldable pub send_signal : ℕ → Waiters → Waiters
send_signal others s = record s { queue = record (s.queue) { signal = true }; unsignalled = others }

-- `popLocked`, with a job, which the caller returns.
unfoldable pub hand_out : ℕ → Job → List Job → Waiters → Waiters
hand_out others job rest s = record s {
  queue = record (s.queue) { jobs = rest };
  awake = others;
  handed = s.handed ++ (job ∷ []);
}

-- `<-q.signal`
unfoldable pub wake_one : ℕ → Waiters → Waiters
wake_one others s = record s {
  queue = record (s.queue) { signal = false };
  awake = suc s.awake;
  asleep = others;
}

pub data Step : Waiters → Waiters → Type 0 where
  inserts : (job : Job) (s : Waiters) → s.queue.closed ≡ false → Step s (insert_job job s)
  signals : (others : ℕ) (s : Waiters) → s.unsignalled ≡ suc others → Step s (send_signal others s)
  pops :
      (job : Job) (rest : List Job) (others : ℕ) (s : Waiters)
      → s.awake ≡ suc others
      → s.queue.jobs ≡ job ∷ rest
      → Step s (hand_out others job rest s)
  finds_none :
      (others : ℕ) (s : Waiters)
      → s.awake ≡ suc others
      → s.queue.jobs ≡ []
      → s.queue.closed ≡ false
      → Step s (record s { awake = others; asleep = suc s.asleep })
  wakes :
      (others : ℕ) (s : Waiters)
      → s.asleep ≡ suc others
      → s.queue.signal ≡ true
      → Step s (wake_one others s)
  calls : (s : Waiters) → Step s (record s { awake = suc s.awake })
  closes : (s : Waiters) → Step s (record s { queue = record (s.queue) { closed = true } })
  finds_closed :
      (others : ℕ) (s : Waiters)
      → s.awake ≡ suc others
      → s.queue.jobs ≡ []
      → s.queue.closed ≡ true
      → Step s (record s { awake = others })
  is_told :
      (others : ℕ) (s : Waiters)
      → s.asleep ≡ suc others
      → s.queue.closed ≡ true
      → Step s (record s { asleep = others })

pub data Steps : Waiters → Waiters → Type 0 where
  here : (s : Waiters) → Steps s s
  next : (s t u : Waiters) → Steps s t → Step t u → Steps s u

-- The same with at most `limit` callers of `Dequeue` at any time.
pub data StepsWithin (limit : ℕ) : Waiters → Waiters → Type 0 where
  here_within : (s : Waiters) → s.awake + s.asleep ≤ limit → StepsWithin limit s s
  next_within :
      (s t u : Waiters)
      → StepsWithin limit s t
      → Step t u
      → u.awake + u.asleep ≤ limit
      → StepsWithin limit s u
