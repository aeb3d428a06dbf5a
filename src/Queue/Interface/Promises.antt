-- ===== src/Queue/Interface/Promises.antt =====
-- What the interface `Queue` promises to its callers.
use rjq.Common.{ℕ, suc, String, some, List, ◌≡◌}
use rjq.Common.Monad.{Result, ok, err}
use rjq.Models.{Job}
use rjq.Errors.{Error}
use rjq.Queue.RateLimited.{Delivery, delivered, nothing, blocked, holding}
use rjq.Queue.Interface.{Queue}

-- A job that is accepted is one more that waits, and an error changes nothing.
abbrev pub Enqueues : ℕ → Result Error (Unit {0}) → ℕ → Type 0
Enqueues n (ok _) n' = n' ≡ suc n
Enqueues n (err e) n' = n' ≡ n

-- A job that is taken out is one less, whether it is returned or waits for a token; without one the
-- count stays.
abbrev pub Delivers : ℕ → Delivery → ℕ → Type 0
Delivers n (delivered job) n' = n ≡ suc n'
Delivers n (holding job) n' = n ≡ suc n'
Delivers n nothing n' = n' ≡ n
Delivers n blocked n' = n' ≡ n

-- `rows` are the jobs of the table; `calm` and `calm_wait` say that during a call the other goroutines
-- leave the number of the waiting jobs as it is.
pub record Promises {S V W : Type 0} (q : Queue S V W) (rows : S → List String) (calm : V → Type 0)
    (calm_wait : W → Type 0) : Type 0 where
  pub enqueues :
      (job : Job) (s : S)
      → Enqueues (q.pending_count s) (q.enqueue job s).0 (q.pending_count (q.enqueue job s).1)
  pub dequeues :
      (v : V) (s : S)
      → calm v
      → Delivers (q.pending_count s) (q.dequeue v s).0 (q.pending_count (q.dequeue v s).1)
  pub waits :
      (w : W) (s : S)
      → calm_wait w
      → Delivers
          (q.pending_count s)
          (q.dequeue_or_wait w s).0
          (q.pending_count (q.dequeue_or_wait w s).1)
  pub drains : (s t : S) → q.close s ≡ some t → q.pending_count t ≡ q.pending_count s
  pub refuses :
      (s t : S) (job : Job) → q.close s ≡ some t → (e : Error) × (q.enqueue job t ≡ (err e, t))
  pub ack_keeps : (id : String) (now : ℕ) (s : S) → rows (q.ack id now s).1 ≡ rows s
  pub nack_keeps : (id : String) (now : ℕ) (s : S) → rows (q.nack id now s).1 ≡ rows s
  pub set_processing_keeps :
      (id : String) (now : ℕ) (s : S) → rows (q.set_processing id now s).1 ≡ rows s
  pub requeue_keeps : (id : String) (now : ℕ) (s : S) → rows (q.requeue id now s).1 ≡ rows s
  pub retry_keeps : (id : String) (extra now : ℕ) (s : S) → rows (q.retry id extra now s).1 ≡ rows s
