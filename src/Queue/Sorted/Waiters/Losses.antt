-- ===== src/Queue/Sorted/Waiters/Losses.antt =====
-- Two callers of `Dequeue`, of which one can sleep beside a job.
use rjq.Common.{
  ℕ, zero, suc, ◌+◌, ◌<◌, true, false, [], ◌∷◌, ◌≡◌, inl, inr, refl, ap, ◌∙◌, arith, Bool-cases,
}
use rjq.Models.{Job}
use rjq.Queue.Sorted.{goes_before, insert_locked}
use rjq.Queue.Sorted.Order.{insert, insert_locked-insert}
use rjq.Queue.Sorted.Waiters.{
  Waiters, new_waiters, insert_job, send_signal, hand_out, wake_one, Step, inserts, signals, pops,
  finds_none, wakes, calls, closes, finds_closed, is_told, Steps, here, next,
}

-- A caller sleeps, the queue is open and has a job, and nobody is about to wake the caller.
pub record IsLost (s : Waiters) : Type 0 where
  pub job : Job
  pub has_job : s.queue.jobs ≡ job ∷ []
  pub is_open : s.queue.closed ≡ false
  pub sleeper : 0 < s.asleep
  pub none_awake : s.awake ≡ 0
  pub no_token : s.queue.signal ≡ false
  pub none_sends : s.unsignalled ≡ 0

-- A new call of `Enqueue`, of `Dequeue` or of `Close`.
pub data IsNewCall (s : Waiters) : Waiters → Type 0 where
  enqueues : (job : Job) → IsNewCall s (insert_job job s)
  dequeues : IsNewCall s (record s { awake = suc s.awake })
  shuts : IsNewCall s (record s { queue = record (s.queue) { closed = true } })

IsLost-Step : (s t : Waiters) → IsLost s → Step s t → IsNewCall s t
IsLost-Step s _ l (inserts job _ c) = enqueues job
IsLost-Step s _ l (signals others _ e) = absurd (omega (arith, e, l.none_sends))
IsLost-Step s _ l (pops job rest others _ e j) = absurd (omega (arith, e, l.none_awake))
IsLost-Step s _ l (finds_none others _ e j c) = absurd (omega (arith, e, l.none_awake))
IsLost-Step s _ l (wakes others _ e g) = cc (g, l.no_token)
IsLost-Step s _ l (calls _) = dequeues
IsLost-Step s _ l (closes _) = shuts
IsLost-Step s _ l (finds_closed others _ e j c) = absurd (omega (arith, e, l.none_awake))
IsLost-Step s _ l (is_told others _ e c) = cc (c, l.is_open)

-- Every caller finds the open queue empty and goes to sleep.
all_sleep :
    (k : ℕ) (s t : Waiters)
    → Steps s t
    → t.awake ≡ k
    → t.queue.jobs ≡ []
    → t.queue.closed ≡ false
    → (u : Waiters) × Steps s u
      × (u.awake ≡ 0)
      × (u.asleep ≡ k + t.asleep)
      × (u.queue ≡ t.queue)
      × (u.unsignalled ≡ t.unsignalled)
all_sleep zero s t h e j c = (t, h, e, omega arith, refl, refl)
all_sleep (suc k) s t h e j c =
    let (u, g, a, z, q, n) =
      all_sleep k s (record t { awake = k; asleep = suc t.asleep })
        (next s t _ h (finds_none k t e j c)) refl j c in
    (u, g, a, omega (arith, z), q, n)

-- Of two jobs that were inserted, one stands first and the other behind it.
insert_second : (a b : Job) → (i : Job) × (j : Job) × (insert_locked b (a ∷ []) ≡ i ∷ j ∷ [])
unfolding insert
insert_second a b = elim (Bool-cases (goes_before b a)) [
  | inl e ↦ (b, a, insert_locked-insert b (a ∷ []) ∙ (rw e refl))
  | inr e ↦ (a, b, insert_locked-insert b (a ∷ []) ∙ (rw e refl))
]

-- Two jobs are inserted beside sleeping callers, the second token finds the channel full, one caller
-- wakes and gets the first job.
loses :
    (n : ℕ) (a b : Job) (s u : Waiters)
    → Steps s u
    → u.awake ≡ 0
    → u.asleep ≡ suc (suc n)
    → u.queue.jobs ≡ []
    → u.queue.closed ≡ false
    → u.unsignalled ≡ 0
    → (t : Waiters) × Steps s t × IsLost t
unfolding insert_job send_signal wake_one hand_out insert_locked
loses n a b s u h w z j c k =
    let (x, y, e) = insert_second a b in
    let one = insert_job a u in
    let told = send_signal 0 one in
    let two = insert_job b told in
    let full = send_signal 0 two in
    let awoken = wake_one (suc n) full in
    let jobs : awoken.queue.jobs ≡ x ∷ y ∷ [] =
      ap (λ l. insert_locked b (insert_locked a l)) j ∙ e in
    (
      hand_out 0 x (y ∷ []) awoken,
      next s _ _
          (next s _ _
            (next s _ _
              (next s _ _ (next s _ _ (next s _ _ h (inserts a u c)) (signals 0 one (ap suc k)))
                (inserts b told c))
              (signals 0 two refl))
            (wakes (suc n) full z refl))
          (pops x (y ∷ []) 0 awoken (ap suc w) jobs),
      record {
        job = y;
        has_job = refl;
        is_open = c;
        sleeper = omega arith;
        none_awake = refl;
        no_token = refl;
        none_sends = refl;
      },
    )

-- With two or more callers of `Dequeue` on a new SortedQueue, and for any two jobs, the goroutines can
-- come to a state in which a caller sleeps although the queue is open and has a job, and from which
-- nothing goes on but by a new call of `Enqueue`, `Dequeue` or `Close`: the token of the second
-- `Enqueue` was dropped, and the caller that took the first one has returned.
pub new_waiters-IsLost :
    (n : ℕ) (a b : Job)
    → (s : Waiters) × Steps (new_waiters (suc (suc n))) s
      × IsLost s
      × ((t : Waiters) → Step s t → IsNewCall s t)
unfolding new_waiters
new_waiters-IsLost n a b =
    let start = new_waiters (suc (suc n)) in
    let (u, h, w, z, q, k) = all_sleep (suc (suc n)) start start (here start) refl refl refl in
    let (t, g, l) =
      loses n a b start u h w (omega (arith, z)) (ap (λ r. r.jobs) q) (ap (λ r. r.closed) q) k in
    (t, g, l, λ v. IsLost-Step t v l)
