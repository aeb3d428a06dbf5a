-- ===== src/Server/Goroutines/Consistency.antt =====
-- In every state of the running server the slots, the gauge and the goroutines agree.
use rjq.Common.{
  ℤ, pos, succ, pred, ℕ, suc, some, ◌≡◌, sym, ap, ◌∙◌, subst, map, length, get_elem?, set, arith,
}
use rjq.Worker.{Slot, System, on_slot}
use rjq.Worker.Lives.Supervision
use rjq.Worker.Lives.Supervision.{occurs}
use rjq.Worker.Slots.{job_in, change_slot-modify, modify-set}
use rjq.Server.Kept.{SamePool, SamePool-Kept}
use rjq.Server.Goroutines.{Phase, Machine, lives_of, goes_to}
use rjq.Server.Goroutines.Phases.{
  in_slot, busy_in, busy_count, lives_in, lives_at, map-set, map-set_same, length-set, total-set,
  lives_at-set,
}

-- A slot names a job exactly as long as the worker of that slot is between the registration of this
-- job and the deferred call that clears it; the gauge is the number of the workers between its two
-- changes; a worker has one goroutine or none, as its phase says; and the pool is as in
-- `Supervision`.
pub record Inv (n : ℕ) (m : Machine) : Type 0 where
  pub slots : map job_in m.system.pool.slots ≡ map in_slot m.phases
  pub gauge : m.busy ≡ pos (busy_count m.phases)
  pub places : (i : ℕ) → occurs i m.running ≡ lives_at (get_elem? m.phases i)
  pub workers : length m.phases ≡ n
  pub lives : Supervision.Inv n (lives_of m)

same_lives :
    (m : Machine) (s : System)
    → SamePool m.system s
    → lives_of (record m { system = s }) ≡ lives_of m
same_lives m s h =
    λ i. record (lives_of m) { count = h.count i; alive = h.alive i; done = h.done i }

-- A step of a goroutine outside the pool.
pub outside-Inv :
    (n : ℕ) (m : Machine) (s : System)
    → SamePool m.system s
    → Inv n m
    → Inv n (record m { system = s })
outside-Inv n m s h v = record {
  slots = h.jobs ∙ v.slots;
  gauge = v.gauge;
  places = v.places;
  workers = v.workers;
  lives = subst (Supervision.Inv n) (sym (same_lives m s h)) v.lives;
}

-- A worker goes from the phase `p` to `q`; `b` is the gauge afterwards.
module _ (n id : ℕ) (p q : Phase) (m : Machine) (at : get_elem? m.phases id ≡ some p)
    (alive : lives_in q ≡ lives_in p) (v : Inv n m) where
  stays_counted : busy_in q ≡ busy_in p → m.busy ≡ pos (busy_count (set m.phases id q))
  stays_counted e = v.gauge ∙ ap pos (omega (arith, total-set busy_in m.phases id p q at))

  rises : busy_in p ≡ 0 → busy_in q ≡ 1 → succ m.busy ≡ pos (busy_count (set m.phases id q))
  rises e f = ap succ v.gauge ∙ ap pos (omega (arith, total-set busy_in m.phases id p q at))

  falls : busy_in p ≡ 1 → busy_in q ≡ 0 → pred m.busy ≡ pos (busy_count (set m.phases id q))
  falls e f =
      let more : busy_count m.phases ≡ suc (busy_count (set m.phases id q)) =
        omega (arith, total-set busy_in m.phases id p q at) in
      ap pred (v.gauge ∙ ap pos more)

  in_place : (i : ℕ) → occurs i m.running ≡ lives_at (get_elem? (set m.phases id q) i)
  in_place i = v.places i ∙ ground (arith, lives_at-set m.phases id i p q at)

  advances :
      (s : System) (b : ℤ)
      → SamePool m.system s
      → in_slot q ≡ in_slot p
      → b ≡ pos (busy_count (set m.phases id q))
      → Inv n (record (goes_to id q m s) { busy = b })
  advances s b h e g = record {
    slots = h.jobs ∙ v.slots ∙ sym (map-set_same in_slot m.phases id p q at e);
    gauge = g;
    places = in_place;
    workers = length-set m.phases id q ∙ v.workers;
    lives = subst (Supervision.Inv n) (sym (same_lives m s h)) v.lives;
  }

  -- The gauge stays as it is.
  pub steps-Inv :
      (s : System)
      → SamePool m.system s
      → in_slot q ≡ in_slot p
      → busy_in q ≡ busy_in p
      → Inv n (goes_to id q m s)
  steps-Inv s h e f = advances s m.busy h e (stays_counted f)

  pub counts-Inv :
      in_slot q ≡ in_slot p
      → busy_in p ≡ 0
      → busy_in q ≡ 1
      → Inv n (record (goes_to id q m m.system) { busy = succ m.busy })
  counts-Inv e f g = advances m.system (succ m.busy) (SamePool-Kept.same m.system) e (rises f g)

  pub uncounts-Inv :
      in_slot q ≡ in_slot p
      → busy_in p ≡ 1
      → busy_in q ≡ 0
      → Inv n (record (goes_to id q m m.system) { busy = pred m.busy })
  uncounts-Inv e f g = advances m.system (pred m.busy) (SamePool-Kept.same m.system) e (falls f g)

  -- The worker writes its slot.
  pub writes-Inv :
      (f : Slot → Slot)
      → ((x : Slot) → job_in (f x) ≡ in_slot q)
      → busy_in q ≡ busy_in p
      → Inv n (goes_to id q m (on_slot id f m.system))
  writes-Inv f h e = record {
    slots =
        ap (map job_in) (change_slot-modify f id m.system.pool.slots)
        ∙ modify-set f (in_slot q) id m.system.pool.slots h
        ∙ ap (λ js. set js id (in_slot q)) v.slots
        ∙ sym (map-set in_slot m.phases id q);
    gauge = stays_counted e;
    places = in_place;
    workers = length-set m.phases id q ∙ v.workers;
    lives = v.lives;
  }
