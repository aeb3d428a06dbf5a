-- ===== src/Queue/Memory/Threads/Ending.antt =====
-- `Close` comes to its end, and with it every call of `Enqueue`, whether or not the channel is drained.
use rjq.Common.{
  ℕ, zero, suc, ◌+◌, ◌*◌, ◌≤◌, true, List, [], ◌∷◌, ◌++◌, ◌≡◌, inl, inr, refl, ap, ◌∙◌, length,
  length-append, arith, Bool-cases,
}
use rjq.Models.{Job}
use rjq.Queue.Memory.Threads.{
  Closer, absent, waiting, over, Threads, new_threads, enter, send, give_up, begin_close, end_close,
  receive_job, Step, enters, sends, panics, gives_up, receives, joins, stops, closes, ends, Steps,
  here, next,
}
use rjq.Queue.Memory.Threads.Shutdown.{
  Inv, Closing, length-middle, new_threads-Steps-Inv, Steps-Inv,
}

-- How many steps are left: a sender sends or gives up, each job in the buffer is received, each
-- receiver stops, and `Close` closes the channel.
abbrev pub steps_of : Closer → ℕ
steps_of absent = 0
steps_of waiting = 1
steps_of over = 0

abbrev pub left : Threads → ℕ
left s = 2 * length s.senders + length s.jobs + s.receivers + steps_of s.closer

Step-left :
    (s t : Threads) → Step s t → s.closed ≡ true → (t.closed ≡ true) × (suc (left t) ≤ left s)
unfolding enter send give_up begin_close end_close receive_job
Step-left s _ (enters job _ c) h = cc
Step-left s _ (sends pre post job _ e room) h =
    let l = ap (λ (l : List Job). length l) e ∙ length-middle pre post job in
    elim (Bool-cases s.jobs_closed) [
      | inl b ↦ simp b (h, omega (arith, l))
      | inr b ↦ simp b (h, omega (arith, l, length-append s.jobs (job ∷ [])))
    ]
Step-left s _ (panics pre post job _ e c) h =
    let l = ap (λ (l : List Job). length l) e ∙ length-middle pre post job in
    simp c (h, omega (arith, l))
Step-left s _ (gives_up pre post job _ e) h =
    let l = ap (λ (l : List Job). length l) e ∙ length-middle pre post job in (h, omega (arith, l))
Step-left s _ (receives others job rest _ r e) h =
    let l = ap (λ (l : List Job). length l) e in (h, omega (arith, l))
Step-left s _ (joins _ c) h = cc
Step-left s _ (stops others _ r) h = (h, omega (arith, r))
Step-left s _ (closes _ c) h = cc
Step-left s _ (ends _ c z) h =
    let k = ap steps_of c in
    elim (Bool-cases s.jobs_closed) [
      | inl b ↦ simp b (h, omega (arith, k))
      | inr b ↦ simp b (h, omega (arith, k))
    ]

Steps-left :
    (n : ℕ) (s t : Threads)
    → Steps n s t
    → s.closed ≡ true
    → (t.closed ≡ true) × (n + left t ≤ left s)
Steps-left _ s _ (here _) h = (h, omega arith)
Steps-left _ s u (next n _ t _ k l) h =
    let (c, m) = Steps-left n s t k h in let (d, o) = Step-left t u l c in (d, omega (arith, m, o))

-- No goroutine of the queue can go on.
abbrev pub Stuck : Threads → Type 0
Stuck s = (t : Threads) → ¬ Step s t

-- `Close` is over, no `Enqueue` is under way, no receiver is left, and the jobs that were sent are
-- those that were handed out and, behind them, those that stay in the buffer.
pub record Ended (s : Threads) : Type 0 where
  pub returned : s.closer ≡ over
  pub shut : s.jobs_closed ≡ true
  pub none_waits : s.senders ≡ []
  pub none_receives : s.receivers ≡ 0
  pub left_behind : s.received ++ s.jobs ≡ s.accepted

no_sender_left : (s : Threads) (l : List Job) → s.senders ≡ l → Stuck s → s.senders ≡ []
no_sender_left s [] e h = e
no_sender_left s (job ∷ l) e h = absurd (h _ (gives_up [] l job s e))

no_receiver_left : (s : Threads) (k : ℕ) → s.receivers ≡ k → Stuck s → s.receivers ≡ 0
no_receiver_left s zero e h = e
no_receiver_left s (suc k) e h = absurd (h _ (stops k s e))

Stuck-Ended : (s : Threads) → Inv s → s.closed ≡ true → Stuck s → Ended s
Stuck-Ended s i c h = go s.closer refl i.closing
  where
    none : s.senders ≡ []
    none = no_sender_left s s.senders refl h

    go : (k : Closer) → s.closer ≡ k → Closing k s → Ended s
    go absent e w = cc (c, w.0)
    go waiting e w = absurd (h _ (ends s e (i.counted ∙ ap (λ (l : List Job). length l) none)))
    go over e w = record {
      returned = e;
      shut = w.1;
      none_waits = none;
      none_receives = no_receiver_left s s.receivers refl h;
      left_behind = i.in_order;
    }

-- From a state of a queue in which `Close` has begun, the goroutines make at most a fixed number of
-- steps in all, whatever they are: two for each call of `Enqueue` under way, one for each job in the
-- buffer, one for each goroutine that receives, until it stops, and one for `Close`. Where none can
-- go on, `Close` has returned, no call of `Enqueue` is under way, no goroutine receives, and the jobs
-- that were sent are, in their order, those that were handed out and those still in the buffer.
pub closed-Steps-Ended :
    (n size receivers m : ℕ) (s t : Threads)
    → Steps n (new_threads size receivers) s
    → s.closed ≡ true
    → Steps m s t
    → (m + left t ≤ left s) × (Stuck t → Ended t)
closed-Steps-Ended n size receivers m s t h c k =
    let (d, l) = Steps-left m s t k c in
    (l, Stuck-Ended t (Steps-Inv m s t k (new_threads-Steps-Inv n size receivers s h)) d)
