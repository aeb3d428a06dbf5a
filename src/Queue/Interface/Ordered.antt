-- ===== src/Queue/Interface/Ordered.antt =====
-- SortedQueue keeps the promises of the interface.
use rjq.Common.{
  ℕ, suc, Bool, true, false, Option, none, some, List, [], ◌∷◌, ◌≡◌, refl, ap, ◌∙◌, subst, All, inl,
  inr, if◌then◌else◌, length, Bool-cases,
}
use rjq.Common.Monad.{err}
use rjq.Models.{Job}
use rjq.Errors.{text}
use rjq.Storage.Rows.Laws.{ids}
use rjq.Storage.Interface.{Storage}
use rjq.Storage.Contract.{Contract}
use rjq.Queue.Delivery.{on_queue, set_queue}
use rjq.Queue.Delivery.Keeps.{AllSafe, all_safe}
use rjq.Queue.Sorted.{goes_before, SortedQueue, Wake, signalled, closing, elapsed, pop_locked}
use rjq.Queue.Sorted
use rjq.Queue.Sorted.Order.{insert_locked-insert, insert}
use rjq.Queue.Router.{served}
use rjq.Queue.Interface
use rjq.Queue.Interface.{sorted_queue}
use rjq.Queue.Interface.Channels.{after_close}
use rjq.Queue.Interface.Promises.{Promises, Enqueues, Delivers}

length-insert : (job : Job) (jobs : List Job) → length (insert job jobs) ≡ suc (length jobs)
unfolding insert
length-insert job [] = refl
length-insert job (cur ∷ rest) = elim (Bool-cases (goes_before job cur)) [
  | inl e ↦ rw e refl
  | inr e ↦ rw e (ap suc (length-insert job rest))
]

pub sorted-Enqueues :
    (job : Job) (q : SortedQueue)
    → Enqueues (length q.jobs) (Sorted.enqueue job q).0 (length (Sorted.enqueue job q).1.jobs)
unfolding Sorted.enqueue
sorted-Enqueues job q = elim (Bool-cases q.closed) [
  | inl e ↦ rw e refl
  | inr e ↦ rw e (ap length (insert_locked-insert job q.jobs) ∙ length-insert job q.jobs)
]

-- What other goroutines do to the priority queue during a wait leaves the number of its jobs.
abbrev pub IsCalm : (SortedQueue → SortedQueue) → Type 0
IsCalm others = (q : SortedQueue) → length (others q).jobs ≡ length q.jobs

abbrev pub Pops : ℕ → Option Job × SortedQueue → Type 0
Pops n (none, q) = length q.jobs ≡ n
Pops n (some job, q) = n ≡ suc (length q.jobs)

pop-Pops : (q : SortedQueue) → Pops (length q.jobs) (pop_locked q)
unfolding pop_locked
pop-Pops q = go q.jobs refl
  where
    go : (jobs : List Job) → q.jobs ≡ jobs → Pops (length q.jobs) (Sorted.pop_jobs jobs q)
    go [] e = refl
    go (job ∷ rest) e = ap length e

Pops-served :
    (n : ℕ) (x : Option Job × SortedQueue) → Pops n x → Delivers n (served x.0) (length x.1.jobs)
Pops-served n (none, q) h = h
Pops-served n (some job, q) h = h

pub wait-Pops :
    (w : Wake) (others : SortedQueue → SortedQueue) (q : SortedQueue)
    → IsCalm others
    → Pops (length q.jobs) (Sorted.dequeue_or_wait w others q)
unfolding Sorted.dequeue_or_wait
wait-Pops w others q calm = go (pop_locked q) (pop-Pops q)
  where
    woken :
        (v : Wake) (r : SortedQueue)
        → length r.jobs ≡ length q.jobs
        → Pops (length q.jobs) (Sorted.wake_up v (others r))
    woken signalled r h =
        subst (λ n. Pops n (pop_locked (record (others r) { signal = false }))) (calm r ∙ h)
          (pop-Pops (record (others r) { signal = false }))
    woken closing r h = calm r ∙ h
    woken elapsed r h = calm r ∙ h

    ended :
        (b : Bool) (r : SortedQueue)
        → length r.jobs ≡ length q.jobs
        → Pops (length q.jobs) (if b then (none, r) else Sorted.wake_up w (others r))
    ended true r h = h
    ended false r h = woken w r h

    go :
        (x : Option Job × SortedQueue)
        → Pops (length q.jobs) x
        → Pops (length q.jobs) (Sorted.wait_more w others x)
    go (some job, r) h = h
    go (none, r) h = ended r.closed r h

abbrev pub AllCalm : List (Bool × (SortedQueue → SortedQueue)) → Type 0
AllCalm waits = All (λ w. IsCalm w.1) waits

abbrev Arrives : ℕ → Option (Option Job) × SortedQueue → Type 0
Arrives n x = Delivers n (Interface.came x.0) (length x.1.jobs)

or_wait-Arrives :
    (n : ℕ) (more : SortedQueue → Option (Option Job) × SortedQueue) (x : Option Job × SortedQueue)
    → Pops n x
    → ((r : SortedQueue) → length r.jobs ≡ n → Arrives n (more r))
    → Arrives n (Sorted.or_wait more x)
or_wait-Arrives n more (some job, r) h k = h
or_wait-Arrives n more (none, r) h k = go r.closed
  where
    go : (b : Bool) → Arrives n (if b then (some none, r) else more r)
    go true = h
    go false = k r h

sorted_dequeues :
    (waits : List (Bool × (SortedQueue → SortedQueue))) (q : SortedQueue)
    → AllCalm waits
    → Arrives (length q.jobs) (Sorted.dequeue waits q)
unfolding Sorted.dequeue
sorted_dequeues [] q h = or_wait-Arrives (length q.jobs) _ (pop_locked q) (pop-Pops q) (λ r e. e)
sorted_dequeues ((true, others) ∷ waits) q h =
    or_wait-Arrives (length q.jobs) _ (pop_locked q) (pop-Pops q) (λ r e.
      subst (λ n. Arrives n (Sorted.dequeue waits (record (others r) { signal = false })))
        (h.0 r ∙ e) (sorted_dequeues waits (record (others r) { signal = false }) h.1))
sorted_dequeues ((false, others) ∷ waits) q h =
    or_wait-Arrives (length q.jobs) _ (pop_locked q) (pop-Pops q) (λ r e. h.0 r ∙ e)

pub close-jobs : (q : SortedQueue) → (Sorted.close q).jobs ≡ q.jobs
unfolding Sorted.close
close-jobs q = elim (Bool-cases q.closed) [ inl e ↦ rw e refl | inr e ↦ rw e refl ]

pub close-refuses :
    (job : Job) (q : SortedQueue)
    → Sorted.enqueue job (Sorted.close q) ≡ (err (text "queue is closed"), Sorted.close q)
unfolding Sorted.close Sorted.enqueue
close-refuses job q = elim (Bool-cases q.closed) [ inl e ↦ simp e | inr e ↦ simp e ]

pub sorted_queue-Promises :
    (store : Storage) (c : Contract store)
    → Promises (sorted_queue store) (λ s. ids s.db.rows) AllCalm (λ w. IsCalm w.1)
unfolding sorted_queue
sorted_queue-Promises store c =
    let safe : AllSafe (λ q. Unit {0}) store c Sorted.enqueue (λ job q p. tt) =
      all_safe (λ q. Unit {0}) store c Sorted.enqueue (λ job q p. tt) in
    record {
      enqueues = λ job s. sorted-Enqueues job s.queue;
      dequeues = λ waits s h. sorted_dequeues waits s.queue h;
      waits = λ w s h.
          Pops-served (length s.queue.jobs) (Sorted.dequeue_or_wait w.0 w.1 s.queue)
            (wait-Pops w.0 w.1 s.queue h);
      drains = λ s t e.
          after_close (λ u. length u.queue.jobs ≡ length s.queue.jobs) _ t e
            (ap length (close-jobs s.queue));
      refuses = λ s t job e. (
        text "queue is closed",
        after_close (λ u. on_queue (Sorted.enqueue job) u ≡ (err (text "queue is closed"), u)) _ t e
            (ap (set_queue s.db) (close-refuses job s.queue)),
      );
      ack_keeps = λ id now s. (safe.ack_safe id now s).rows;
      nack_keeps = λ id now s. (safe.nack_safe id now s).rows;
      set_processing_keeps = λ id now s. (safe.set_processing_safe id now s).rows;
      requeue_keeps = λ id now s. (safe.requeue_safe id now s).rows;
      retry_keeps = λ id extra now s. (safe.retry_safe id extra now s).rows;
    }
