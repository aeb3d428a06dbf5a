-- ===== src/Queue/Memory/Threads/Shutdown.antt =====
-- `Close` against the calls of `Enqueue` that are under way: nothing is sent on a closed channel, and
-- what was sent is handed out in its order or still in the buffer.
use mathlib.Core.List.{append_assoc}
use rjq.Common.{
  ℕ, suc, ◌≤◌, true, false, List, [], ◌∷◌, ◌++◌, ◌≡◌, refl, sym, ap, subst, ◌-◌, ◌∙◌, length,
  length-append, arith,
}
use rjq.Models.{Job}
use rjq.Queue.Memory.Threads.{
  Closer, absent, waiting, over, Threads, new_threads, enter, send, give_up, begin_close, end_close,
  receive_job, Step, enters, sends, panics, gives_up, receives, joins, stops, closes, ends, Steps,
  here, next,
}

-- Where `Close` stands.
abbrev pub Closing : Closer → Threads → Type 0
Closing absent s = (s.closed ≡ false) × (s.jobs_closed ≡ false)
Closing waiting s = (s.closed ≡ true) × (s.jobs_closed ≡ false)
Closing over s = (s.closed ≡ true) × (s.jobs_closed ≡ true) × (s.senders ≡ [])

pub record Inv (s : Threads) : Type 0 where
  pub no_panic : s.panicked ≡ false
  pub in_order : s.received ++ s.jobs ≡ s.accepted
  pub fits : length s.jobs ≤ s.capacity
  pub counted : s.wg ≡ length s.senders
  pub told : s.done ≡ s.closed
  pub closing : Closing s.closer s

pub length-middle :
    (pre post : List Job) (job : Job) → length (pre ++ (job ∷ post)) ≡ suc (length (pre ++ post))
length-middle pre post job = omega (arith, length-append pre (job ∷ post), length-append pre post)

sender-closing :
    (k : Closer) (pre post : List Job) (job : Job) (s : Threads)
    → s.senders ≡ pre ++ (job ∷ post)
    → Closing k s
    → s.jobs_closed ≡ false
sender-closing absent pre post job s e h = h.1
sender-closing waiting pre post job s e h = h.1
sender-closing over pre post job s e h =
    absurd
      (omega (arith, ap (λ (l : List Job). length l) (sym e ∙ h.2), length-middle pre post job))

Closing-same :
    (k : Closer) (s t : Threads)
    → t.closed ≡ s.closed
    → t.jobs_closed ≡ s.jobs_closed
    → (s.senders ≡ [] → t.senders ≡ [])
    → Closing k s
    → Closing k t
Closing-same absent s t c j e h = (c ∙ h.0, j ∙ h.1)
Closing-same waiting s t c j e h = (c ∙ h.0, j ∙ h.1)
Closing-same over s t c j e h = (c ∙ h.0, j ∙ h.1, e h.2)

-- An open queue stays one.
Closing-open :
    (k : Closer) (s t : Threads)
    → s.closed ≡ false
    → t.closed ≡ false
    → t.jobs_closed ≡ s.jobs_closed
    → Closing k s
    → Closing k t
Closing-open absent s t c d j h = (d, j ∙ h.1)
Closing-open waiting s t c d j h = cc
Closing-open over s t c d j h = cc

open-Closing : (k : Closer) (s : Threads) → s.closed ≡ false → Closing k s → s.jobs_closed ≡ false
open-Closing absent s c h = h.1
open-Closing waiting s c h = h.1
open-Closing over s c h = cc

-- A sender is there no more.
no_sender :
    (pre post : List Job) (job : Job) (s : Threads)
    → s.senders ≡ pre ++ (job ∷ post)
    → (s.senders ≡ [] → (pre ++ post) ≡ [])
no_sender pre post job s e z =
    absurd (omega (arith, ap (λ (l : List Job). length l) (sym e ∙ z), length-middle pre post job))

counted-one :
    (pre post : List Job) (job : Job) (s : Threads)
    → s.senders ≡ pre ++ (job ∷ post)
    → s.wg ≡ length s.senders
    → s.wg - 1 ≡ length (pre ++ post)
counted-one pre post job s e h =
    omega (arith, h, ap (λ (l : List Job). length l) e, length-middle pre post job)

no_length : (l : List Job) → length l ≡ 0 → l ≡ []
no_length [] e = refl
no_length (x ∷ l) e = absurd (omega (arith, e))

Step-Inv : (s t : Threads) → Step s t → Inv s → Inv t
unfolding enter send give_up begin_close end_close receive_job
Step-Inv s _ (enters job _ c) h = simp c (record {
  no_panic = h.no_panic;
  in_order = h.in_order;
  fits = h.fits;
  counted = omega (arith, h.counted, length-append s.senders (job ∷ []));
  told = h.told ∙ c;
  closing = Closing-open s.closer s _ c refl refl h.closing;
})
Step-Inv s _ (sends pre post job _ e room) h =
    let shut = sender-closing s.closer pre post job s e h.closing in
    simp shut (record {
      no_panic = h.no_panic;
      in_order =
          sym (append_assoc s.received s.jobs (job ∷ [])) ∙ ap (λ l. l ++ (job ∷ [])) h.in_order;
      fits = omega (arith, room, length-append s.jobs (job ∷ []));
      counted = counted-one pre post job s e h.counted;
      told = h.told;
      closing = Closing-same s.closer s _ refl (sym shut) (no_sender pre post job s e) h.closing;
    })
Step-Inv s _ (panics pre post job _ e c) h =
    cc (c, sender-closing s.closer pre post job s e h.closing)
Step-Inv s _ (gives_up pre post job _ e) h = record {
  no_panic = h.no_panic;
  in_order = h.in_order;
  fits = h.fits;
  counted = counted-one pre post job s e h.counted;
  told = h.told;
  closing = Closing-same s.closer s _ refl refl (no_sender pre post job s e) h.closing;
}
Step-Inv s _ (receives others job rest _ r e) h = record {
  no_panic = h.no_panic;
  in_order =
      append_assoc s.received (job ∷ []) rest ∙ ap (λ l. s.received ++ l) (sym e) ∙ h.in_order;
  fits = omega (arith, h.fits, ap (λ (l : List Job). length l) e);
  counted = h.counted;
  told = h.told;
  closing = Closing-same s.closer s _ refl refl (λ z. z) h.closing;
}
Step-Inv s _ (joins _ c) h = record {
  no_panic = h.no_panic;
  in_order = h.in_order;
  fits = h.fits;
  counted = h.counted;
  told = h.told;
  closing = Closing-same s.closer s _ refl refl (λ z. z) h.closing;
}
Step-Inv s _ (stops others _ r) h = record {
  no_panic = h.no_panic;
  in_order = h.in_order;
  fits = h.fits;
  counted = h.counted;
  told = h.told;
  closing = Closing-same s.closer s _ refl refl (λ z. z) h.closing;
}
Step-Inv s _ (closes _ c) h = simp c (record {
  no_panic = h.no_panic;
  in_order = h.in_order;
  fits = h.fits;
  counted = h.counted;
  told = refl;
  closing = (refl, open-Closing s.closer s c h.closing);
})
Step-Inv s _ (ends _ c z) h =
    let w : Closing waiting s = subst (λ k. Closing k s) c h.closing in
    simp (w.1) (record {
      no_panic = h.no_panic;
      in_order = h.in_order;
      fits = h.fits;
      counted = h.counted;
      told = h.told;
      closing = (w.0, refl, no_length s.senders (sym h.counted ∙ z));
    })

pub Steps-Inv : (n : ℕ) (s t : Threads) → Steps n s t → Inv s → Inv t
Steps-Inv _ s _ (here _) i = i
Steps-Inv _ s u (next n _ t _ h k) i = Step-Inv t u k (Steps-Inv n s t h i)

-- Whatever the goroutines do: nothing is sent on a closed channel and none is closed twice, the jobs
-- handed out and then those in the buffer are the jobs that were sent, in the order of the sends,
-- the buffer holds no more than it has room for, the wait group counts the calls of `Enqueue` under
-- way, and there is none of these once the channel is closed.
pub new_threads-Steps-Inv :
    (n size receivers : ℕ) (s : Threads) → Steps n (new_threads size receivers) s → Inv s
unfolding new_threads
new_threads-Steps-Inv n size receivers s h = Steps-Inv n _ s h (record {
  no_panic = refl;
  in_order = refl;
  fits = omega arith;
  counted = refl;
  told = refl;
  closing = (refl, refl);
})
