-- ===== src/Queue/Sorted/Waiters/Wakeups.antt =====
-- A single caller of `Dequeue` does not sleep beside a job.
use rjq.Common.{◌<◌, true, false, [], ◌∷◌, ◌++◌, ◌≡◌, ◌⊎◌}
use rjq.Models.{Job}
use rjq.Queue.Sorted.Waiters.{Waiters, Steps}

-- A caller will look into the queue, or a token will wake one, now or after the send.
abbrev pub Rouses : Waiters → Type 0
Rouses s = (0 < s.awake) ⊎ (s.queue.signal ≡ true) ⊎ (0 < s.unsignalled)

abbrev pub Inv : Waiters → Type 0
Inv s = s.queue.closed ≡ false → (s.queue.jobs ≡ []) ⊎ (0 < s.asleep → Rouses s)

-- After some steps the job is the next that is handed out.
pub record Hands (job : Job) (s : Waiters) : Type 0 where
  pub after : Waiters
  pub steps : Steps s after
  pub handed : after.handed ≡ s.handed ++ (job ∷ [])
