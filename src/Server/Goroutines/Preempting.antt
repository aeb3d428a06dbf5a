-- ===== src/Server/Goroutines/Preempting.antt =====
-- What `Preempt` comes to among the goroutines of the running server.
use rjq.Common.{
  ℕ, zero, suc, String, some, List, [], ◌∷◌, ◌++◌, ◌≡◌, refl, ap, ◌∙◌, subst, map, length,
  get_elem?,
}
use rjq.Common.Monad.{ok}
use rjq.Models.{Job}
use rjq.Storage.Interface.{Storage}
use rjq.Storage.Contract.{Contract}
use rjq.Api.Routes.Reading.{AsksOnce}
use rjq.Worker.{Slot, System, start, preempt, slot_preempt}
use rjq.Worker.Slots.{job_in, current_job}
use rjq.Worker.Preempt.{Outcome, Picks, preempt-Outcome}
use rjq.Server.Goroutines.{Phase, Machine, launch, Steps}
use rjq.Server.Goroutines.Phases.{in_slot}
use rjq.Server.Goroutines.Consistency.{Inv}
use rjq.Server.Goroutines.Reached.{launch-Inv, Steps-Inv}
use rjq.Server.Goroutines.Waiting.{Waits, Fate, Steps-Fate}

get_elem?-middle :
    (pre : List Slot) (x : Slot) (post : List Slot)
    → get_elem? (pre ++ (x ∷ post)) (length pre) ≡ some x
get_elem?-middle [] x post = refl
get_elem?-middle (y ∷ ys) x post = get_elem?-middle ys x post

-- Two lists with one image have the same at each index.
get_elem?-image :
    (slots : List Slot) (ps : List Phase) (i : ℕ) (x : Slot)
    → map job_in slots ≡ map in_slot ps
    → get_elem? slots i ≡ some x
    → (p : Phase) × (get_elem? ps i ≡ some p) × (in_slot p ≡ job_in x)
get_elem?-image [] ps i x e h = cc
get_elem?-image (y ∷ ys) [] i x e h = cc
get_elem?-image (y ∷ ys) (q ∷ qs) zero x e h = (q, refl, cc)
get_elem?-image (y ∷ ys) (q ∷ qs) (suc i) x e h = get_elem?-image ys qs i x (cc) h

-- The interrupted worker, which has registered a job and not cleared it yet, and what becomes of the
-- job for which it is interrupted.
pub record Interrupts (store : Storage) (job : Job) (id : String) (m after n : Machine)
    : Type 0 where
  pub worker : ℕ
  pub victim : Job
  pub named : victim.id ≡ id
  pub phase : Phase
  pub at : get_elem? m.phases worker ≡ some phase
  pub registered : in_slot phase ≡ some victim
  pub fate : Fate store worker job after n

picked-Interrupts :
    (store : Storage) (c : Contract store) (asks : AsksOnce store) (count : ℕ) (job j : Job)
    (id : String) (m : Machine) (s : System) (n : Machine)
    → Inv count m
    → j.id ≡ id
    → Picks job j m.system.pool.slots s.pool.slots
    → Steps store (record m { system = s }) n
    → Interrupts store job id m (record m { system = s }) n
picked-Interrupts store c asks count job j id m s n v e p h =
    let i = length p.pre in
    let was : get_elem? m.system.pool.slots i ≡ some p.slot =
      ap (λ xs. get_elem? xs i) p.was ∙ get_elem?-middle p.pre p.slot p.post in
    let waits : Waits i job s =
      ap slot_preempt (ap (λ xs. get_elem? xs i) p.becomes ∙ get_elem?-middle p.pre _ p.post) in
    let (phase, at, slot) = get_elem?-image m.system.pool.slots m.phases i p.slot v.slots was in
    record {
      worker = i;
      victim = j;
      named = e;
      phase = phase;
      at = at;
      registered = slot ∙ ap current_job p.picked.current;
      fate = Steps-Fate store c asks i job h waits;
    }

-- In every state that a started pool comes to among the goroutines of the server: the job whose id a
-- successful `Preempt` returns is the one that some worker has registered in `processJob` and has not
-- cleared yet; and whatever the goroutines do from then on, the new job waits in that worker's slot
-- and is neither overwritten nor lost, until this worker takes it in a round of its loop.
pub preempt-Interrupts :
    (store : Storage) (c : Contract store) (asks : AsksOnce store) (count : ℕ) (s0 : System)
    (m : Machine) (job : Job) (id : String) (s : System) (n : Machine)
    → s0.pool ≡ start count
    → Steps store (launch s0) m
    → preempt job m.system ≡ (ok id, s)
    → Steps store (record m { system = s }) n
    → Interrupts store job id m (record m { system = s }) n
preempt-Interrupts store c asks count s0 m job id s n e h was k =
    let v = Steps-Inv store c asks count h (launch-Inv s0 count e) in
    let (j, named, picks, _) = subst (Outcome job m.system) was (preempt-Outcome job m.system) in
    picked-Interrupts store c asks count job j id m s n v named picks k
