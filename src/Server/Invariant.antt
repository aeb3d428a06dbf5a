-- ===== src/Server/Invariant.antt =====
-- What holds of the running server, whatever its handlers, workers, sweepers and ticker do.
use rjq.Common.{
  ℕ, zero, suc, String, Option, none, some, List, [], ◌∷◌, ◌≡◌, refl, sym, ap, ◌∙◌, subst, length,
  length-append, set, get_elem?,
}
use rjq.Common.Monad.{Result, ok, err}
use rjq.Models.{Job}
use rjq.Errors.{Error, jobs_preempted}
use rjq.Storage.Database.{Database}
use rjq.Storage.Interface.{Storage}
use rjq.Storage.Contract.{Contract}
use rjq.Queue.Router.{Router}
use rjq.Queue.Router.Sound.{IsSound, Carries, Extends, Extends-refl, Extends-trans}
use rjq.Queue.Router.Sound.Methods
use rjq.Worker.{
  Slot, System, Outcome, succeeds, fails, live, cancelled, expired, Context, change_slot, on_slot,
  settle, preempted, preempt_slots,
}
use rjq.Worker
use rjq.Worker.Preempt.{Picks, preempt-Outcome}

pub record Sound (s : System) : Type 0 where
  pub queues : IsSound s.router
  pub slots : length s.pool.slots ≡ s.pool.count

-- Between two states: no row is removed, and a sound system stays sound.
pub record Leads (s t : System) : Type 0 where
  pub rows : Extends s.router.db t.router.db
  pub sound : Sound s → Sound t

pub Leads-refl : (s : System) → Leads s s
Leads-refl s = record { rows = Extends-refl s.router.db; sound = λ h. h }

pub Leads-trans : (s t u : System) → Leads s t → Leads t u → Leads s u
Leads-trans s t u h k = record {
  rows = Extends-trans s.router.db t.router.db u.router.db h.rows k.rows;
  sound = λ p. k.sound (h.sound p);
}

-- A step of the router.
pub routed : (s : System) (r : Router) → Carries s.router r → Leads s (record s { router = r })
routed s r h = record {
  rows = h.rows;
  sound = λ p. record { queues = h.sound p.queues; slots = p.slots };
}

-- A step of the database alone.
pub stored :
    (s : System) (db : Database)
    → Extends s.router.db db
    → Leads s (record s { router = record (s.router) { db = db } })
stored s db h =
    routed s (record (s.router) { db = db })
      (record {
        rows = h;
        sound = λ p. record {
          fifo_fits = p.fifo_fits;
          sorted = p.sorted;
          rate_limited_fits = p.rate_limited_fits;
          within_burst = p.within_burst;
        };
        drained = λ d. d;
      })

length-set : (slots : List Slot) (i : ℕ) (x : Slot) → length (set slots i x) ≡ length slots
length-set [] i x = refl
length-set (y ∷ ys) zero x = refl
length-set (y ∷ ys) (suc i) x = ap suc (length-set ys i x)

length-change_slot :
    (f : Slot → Slot) (o : Option Slot) (id : ℕ) (slots : List Slot)
    → length (change_slot f o id slots) ≡ length slots
length-change_slot f none id slots = refl
length-change_slot f (some x) id slots = length-set slots id (f x)

pub slotted : (id : ℕ) (f : Slot → Slot) (s : System) → Leads s (on_slot id f s)
slotted id f s = record {
  rows = Extends-refl s.router.db;
  sound = λ p. record {
    queues = p.queues;
    slots = length-change_slot f (get_elem? s.pool.slots id) id s.pool.slots ∙ p.slots;
  };
}

preempt-count : (job : Job) (s : System) → (Worker.preempt job s).1.pool.count ≡ s.pool.count
unfolding Worker.preempt
preempt-count job s = go (preempt_slots job s.pool.slots)
  where
    go : (o : Option (Job × List Slot)) → (preempted s o).1.pool.count ≡ s.pool.count
    go none = refl
    go (some (j, slots)) = refl

picked-length : (job j : Job) (old new : List Slot) → Picks job j old new → length new ≡ length old
picked-length job j old new p =
    rw (p.was, p.becomes)
      (length-append p.pre (_ ∷ p.post) ∙ sym (length-append p.pre (_ ∷ p.post)))

pub preempt-Leads : (job : Job) (s : System) → Leads s (Worker.preempt job s).1
preempt-Leads job s = go (Worker.preempt job s) (preempt-Outcome job s) (preempt-count job s)
  where
    go :
        (x : Result Error String × System)
        → Worker.Preempt.Outcome job s x
        → x.1.pool.count ≡ s.pool.count
        → Leads s x.1
    go (err e, t) o n = subst (λ u. Leads s u) (sym o.1) (Leads-refl s)
    go (ok id, t) o n =
        let (j, i, p, r) = o in
        let u =
          stored s
            (record (s.router.db) { metrics = jobs_preempted j.queue_type ∷ s.router.db.metrics })
            (Extends-refl s.router.db) in
        record {
          rows = subst (λ x. Extends s.router.db x.db) (sym r) u.rows;
          sound = λ h. record {
            queues = subst IsSound (sym r) (u.sound h).queues;
            slots = picked-length job j s.pool.slots t.pool.slots p ∙ h.slots ∙ sym n;
          };
        }

module _ (store : Storage) (c : Contract store) where
  pub settle-Leads :
      (o : Outcome) (x : Context) (job : Job) (now : ℕ) (s : System)
      → Leads s (settle store o x job now s)
  settle-Leads succeeds x job now s = routed s _ (Methods.ack-IsCarried store c job.id now s.router)
  settle-Leads fails live job now s =
      routed s _ (Methods.nack-IsCarried store c job.id now s.router)
  settle-Leads fails expired job now s =
      routed s _ (Methods.nack-IsCarried store c job.id now s.router)
  settle-Leads fails cancelled job now s =
      routed s _ (Methods.requeue-IsCarried store c job.id now s.router)
