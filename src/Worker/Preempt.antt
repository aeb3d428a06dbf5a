-- ===== src/Worker/Preempt.antt =====
-- Which worker `Preempt` picks, and what it changes.
use rjq.Common.{String, Option, none, some, List, [], ◌∷◌, ◌++◌, ◌≡◌, refl, ap, All, arith}
use rjq.Common.Monad.{Result, ok, err}
use rjq.Models.{Job, priority_normal}
use rjq.Errors.{Error}
use rjq.Worker.{
  Context, cancel, Slot, preemptable, pick, preempt_slots, System, count_preempted, preempted,
  preempt,
}

-- A worker that `Preempt` may pick runs a normal job and has an empty slot.
pub record IsPreemptable (s : Slot) (j : Job) (x : Context) : Type 0 where
  pub current : s.current ≡ some (j, x)
  pub normal : j.priority ≡ priority_normal
  pub empty : s.preempt ≡ none

pub preemptable-IsPreemptable :
    (s : Slot) (j : Job) (x : Context) → preemptable s ≡ some (j, x) → IsPreemptable s j x
preemptable-IsPreemptable s j x h = ground arith

abbrev pub Refuses : Slot → Type 0
Refuses s = (j : Job) (x : Context) → ¬ IsPreemptable s j x

not_preemptable : (s : Slot) → preemptable s ≡ none → Refuses s
not_preemptable s h j x p = ground (arith, p.current, p.normal, p.empty)

-- The first worker that may be preempted is `s`, running `j`; its context is cancelled, its slot
-- holds the new job, and the other workers are as before.
pub record Picks (job j : Job) (old new : List Slot) : Type 0 where
  pub pre : List Slot
  pub slot : Slot
  pub post : List Slot
  pub context : Context
  pub was : old ≡ pre ++ (slot ∷ post)
  pub passed : All Refuses pre
  pub picked : IsPreemptable slot j context
  pub becomes :
      new ≡ pre ++ (record { current = some (j, cancel context); preempt = some job } ∷ post)

abbrev pub Preempts : Job → List Slot → Option (Job × List Slot) → Type 0
Preempts job slots none = All Refuses slots
Preempts job slots (some (j, slots')) = Picks job j slots slots'

Picks-cons :
    (job j : Job) (s : Slot) (old new : List Slot)
    → Refuses s
    → Picks job j old new
    → Picks job j (s ∷ old) (s ∷ new)
Picks-cons job j s old new h p = record {
  pre = s ∷ p.pre;
  slot = p.slot;
  post = p.post;
  context = p.context;
  was = ap (◌∷◌ s) p.was;
  passed = (h, p.passed);
  picked = p.picked;
  becomes = ap (◌∷◌ s) p.becomes;
}

pick-Preempts :
    (job : Job) (s : Slot) (slots : List Slot) (o : Option (Job × Context))
    (rest : Option (Job × List Slot))
    → preemptable s ≡ o
    → Preempts job slots rest
    → Preempts job (s ∷ slots) (pick job s slots o rest)
pick-Preempts job s slots (some (j, x)) rest e h = record {
  pre = [];
  slot = s;
  post = slots;
  context = x;
  was = refl;
  passed = tt;
  picked = preemptable-IsPreemptable s j x e;
  becomes = refl;
}
pick-Preempts job s slots none none e h = (not_preemptable s e, h)
pick-Preempts job s slots none (some (j, slots')) e h =
    Picks-cons job j s slots slots' (not_preemptable s e) h

preempt_slots-Preempts :
    (job : Job) (slots : List Slot) → Preempts job slots (preempt_slots job slots)
unfolding preempt_slots
preempt_slots-Preempts job [] = tt
preempt_slots-Preempts job (s ∷ slots) =
    pick-Preempts job s slots (preemptable s) (preempt_slots job slots) refl
      (preempt_slots-Preempts job slots)

-- The outcome of a call of `Preempt`.
abbrev pub Outcome : Job → System → Result Error String × System → Type 0
Outcome job s (err e, s') = All Refuses s.pool.slots × (s' ≡ s)
Outcome job s (ok id, s') =
    (j : Job) × (j.id ≡ id)
    × Picks job j s.pool.slots s'.pool.slots
    × (s'.router ≡ count_preempted j.queue_type s.router)

preempted-Outcome :
    (job : Job) (s : System) (o : Option (Job × List Slot))
    → Preempts job s.pool.slots o
    → Outcome job s (preempted s o)
preempted-Outcome job s none h = (h, refl)
preempted-Outcome job s (some (j, slots)) h = (j, refl, h, refl)

-- `Preempt` fails, and changes nothing, only if no worker runs a normal job with an empty slot.
-- Else it cancels the job of the first such worker, whose id it returns and which it counts, puts
-- the new job in that worker's slot, and leaves every other worker and every queue as it was: no
-- job that waits in a slot is overwritten.
pub preempt-Outcome : (job : Job) (s : System) → Outcome job s (preempt job s)
unfolding preempt
preempt-Outcome job s =
    preempted-Outcome job s (preempt_slots job s.pool.slots)
      (preempt_slots-Preempts job s.pool.slots)
