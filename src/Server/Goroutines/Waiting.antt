-- ===== src/Server/Goroutines/Waiting.antt =====
-- A super-urgent job that waits in the slot of the worker that it preempted.
use rjq.Common.{
  ℕ, zero, suc, String, none, some, List, [], ◌∷◌, ◌++◌, ◌≡◌, ◌≢◌, refl, sym, ap, ◌∙◌, subst, ◌⊎◌,
  inl, inr, ◌==◌, get_elem?, set, Bool-cases, arith,
}
use rjq.Common.Monad.{Result, ok, err}
use rjq.Models.{Job}
use rjq.Errors.{Error}
use rjq.Storage.Interface.{Storage}
use rjq.Storage.Contract.{Contract}
use rjq.Queue.Router.{Pass}
use rjq.Api.Routes.Reading.{AsksOnce}
use rjq.Worker.{
  Slot, Pool, System, Context, live, cancelled, expired, Outcome, succeeds, fails, settle, on_slot,
  slot_preempt, take_preempted, next_job, worker_round, leave_job,
}
use rjq.Worker
use rjq.Worker.Slots.{change_slot-modify, modify-preempt, modify-elsewhere}
use rjq.Worker.Preempt.{preempt-Outcome}
use rjq.Server.Kept.{Kept}
use rjq.Server.Moves.{Moves-Kept}
use rjq.Server.Handlers.{worker_round-Kept}
use rjq.Server.Goroutines.{
  Phase, looking, taken, Machine, after_round, Step, moves, goes_round, spots, polls_on, gets_token,
  marks, registers, counts, returns, panics, judges, settles, uncounts, clears, ends, arrives,
  departs, expires, notices, restarts, leaves, closes, Steps, here, next,
}
use rjq.Server.Goroutines.Supervised.{shut_down-pool}

module _ (k : ℕ) (job : Job) where
  -- The job stands in the slot of worker `k`.
  abbrev pub Waits : System → Type 0
  Waits s = slot_preempt (get_elem? s.pool.slots k) ≡ some job

  abbrev Keeps : System → System → Type 0
  Keeps s t = Waits s → Waits t

  not_over :
      (pre : List Slot) (x y : Slot) (post : List Slot) (i : ℕ)
      → x.preempt ≡ none
      → slot_preempt (get_elem? (pre ++ (x ∷ post)) i) ≡ some job
      → slot_preempt (get_elem? (pre ++ (y ∷ post)) i) ≡ some job
  not_over [] x y post zero e h = cc
  not_over [] x y post (suc i) e h = h
  not_over (p ∷ ps) x y post zero e h = h
  not_over (p ∷ ps) x y post (suc i) e h = not_over ps x y post i e h

  preempt-Keeps : (job' : Job) (s : System) → Keeps s (Worker.preempt job' s).1
  preempt-Keeps job' s w = go (Worker.preempt job' s) (preempt-Outcome job' s)
    where
      go : (x : Result Error String × System) → Worker.Preempt.Outcome job' s x → Waits x.1
      go (err e, t) o = subst Waits (sym o.1) w
      go (ok id, t) o =
          let p = o.2 in
          subst (λ xs. slot_preempt (get_elem? xs k) ≡ some job) (sym p.becomes)
            (not_over p.pre p.slot _ p.post k p.picked.empty
              (subst (λ xs. slot_preempt (get_elem? xs k) ≡ some job) p.was w))

  Keeps-Kept : Kept Keeps
  Keeps-Kept = record {
    same = λ s w. w;
    trans = λ s t u h g w. g (h w);
    routes = λ s r h w. w;
    preempts = preempt-Keeps;
  }

  slot-Keeps :
      (id : ℕ) (f : Slot → Slot) (s : System)
      → ((x : Slot) → (f x).preempt ≡ x.preempt)
      → Keeps s (on_slot id f s)
  slot-Keeps id f s h w =
      ap (λ xs. slot_preempt (get_elem? xs k)) (change_slot-modify f id s.pool.slots)
      ∙ modify-preempt f id k s.pool.slots h
      ∙ w

  elsewhere-Keeps : (id : ℕ) (f : Slot → Slot) (s : System) → id ≢ k → Keeps s (on_slot id f s)
  elsewhere-Keeps id f s n w =
      ap (λ xs. slot_preempt (get_elem? xs k)) (change_slot-modify f id s.pool.slots)
      ∙ ap slot_preempt (modify-elsewhere f id k s.pool.slots n)
      ∙ w

  settle-Keeps :
      (store : Storage) (o : Outcome) (x : Context) (j : Job) (now : ℕ) (s : System)
      → Keeps s (settle store o x j now s)
  settle-Keeps store succeeds x j now s w = w
  settle-Keeps store fails live j now s w = w
  settle-Keeps store fails expired j now s w = w
  settle-Keeps store fails cancelled j now s w = w

  leave-Keeps : (id : ℕ) (s : System) → Keeps s (leave_job id s)
  unfolding leave_job
  leave-Keeps id s w = slot-Keeps id _ s (λ x. refl) w

  -- The worker's own round takes the job, unless the pool has stopped.
  round_takes :
      (passes : List Pass) (p : Phase) (s : System)
      → after_round (worker_round k passes s).0 ≡ some p
      → Waits s
      → Waits (worker_round k passes s).1 ⊎ (p ≡ taken job)
  unfolding worker_round next_job take_preempted
  round_takes passes p s h w = elim (Bool-cases s.pool.done) [
    | inl e ↦ inl (rw e w)
    | inr e ↦ let g = (rw (e, w) at h) in inr (cc g)
  ]

-- From a state in which the job waits, one comes to another: either it still waits there, or the worker
-- has taken it in between, in a round of its loop.
pub data Fate (store : Storage) (k : ℕ) (job : Job) (m n : Machine) : Type 0 where
  still_waits : Waits k job n.system → Fate store k job m n
  was_taken :
      (before after : Machine)
      → Steps store m before
      → Step store before after
      → get_elem? before.phases k ≡ some looking
      → Waits k job before.system
      → get_elem? after.phases k ≡ some (taken job)
      → Steps store after n
      → Fate store k job m n

elem-set :
    (ps : List Phase) (i : ℕ) (p q : Phase)
    → get_elem? ps i ≡ some p
    → get_elem? (set ps i q) i ≡ some q
elem-set [] i p q h = cc
elem-set (r ∷ rs) zero p q h = refl
elem-set (r ∷ rs) (suc i) p q h = elem-set rs i p q h

own_round :
    (k : ℕ) (job : Job) (id : ℕ) (passes : List Pass) (p : Phase) (m : Machine)
    → id ≡ k
    → get_elem? m.phases id ≡ some looking
    → after_round (worker_round id passes m.system).0 ≡ some p
    → Waits k job m.system
    → Waits k job (worker_round id passes m.system).1
      ⊎ ((get_elem? m.phases k ≡ some looking)
          × (get_elem? (set m.phases id p) k ≡ some (taken job)))
own_round k job id passes p m same e f w =
    subst
      (λ i.
        get_elem? m.phases i ≡ some looking
        → after_round (worker_round i passes m.system).0 ≡ some p
        → Waits k job (worker_round i passes m.system).1
          ⊎ ((get_elem? m.phases k ≡ some looking)
              × (get_elem? (set m.phases i p) k ≡ some (taken job))))
      (sym same)
      (λ e' f'. elim (round_takes k job passes p m.system f' w) [
        | inl h ↦ inl h
        | inr h ↦ inr (e', elem-set m.phases k looking p e' ∙ ap some h)
      ])
      e f

module _ (store : Storage) (c : Contract store) (asks : AsksOnce store) (k : ℕ) (job : Job) where
  -- Every step but the worker's own round leaves the job in the slot.
  Step-Waits :
      {l m : Machine}
      → Step store l m
      → Waits k job l.system
      → Waits k job m.system
        ⊎ ((get_elem? l.phases k ≡ some looking) × (get_elem? m.phases k ≡ some (taken job)))
  Step-Waits (moves m s h) w =
      inl (Moves-Kept (Keeps k job) (Keeps-Kept k job) store c asks m.system s h w)
  Step-Waits (goes_round id passes p m e h f) w = elim (Bool-cases (id == k)) [
    | inl same ↦ own_round k job id passes p m (ground (arith, same)) e f w
    | inr other ↦ inl (
        worker_round-Kept (Keeps k job) (Keeps-Kept k job) id
          (λ s. elsewhere-Keeps k job id _ s (ground (arith, other))) passes m.system h w)
  ]
  Step-Waits (spots id p m e h d u n t) w = inl w
  Step-Waits (polls_on id p passes q m e h f) w = inl w
  Step-Waits (gets_token id j m e h) w = inl w
  Step-Waits (marks id j now m e) w = inl w
  Step-Waits (registers id j m e) w = inl (slot-Keeps k job id _ m.system (λ x. refl) w)
  Step-Waits (counts id j m e) w = inl w
  Step-Waits (returns id j o m e) w = inl w
  Step-Waits (panics id j m e) w = inl w
  Step-Waits (judges id j o m e) w = inl w
  Step-Waits (settles id j o x now m e) w = inl (settle-Keeps k job store o x j now m.system w)
  Step-Waits (uncounts id b j m e) w = inl w
  Step-Waits (clears id b j m e) w = inl (leave-Keeps k job id m.system w)
  Step-Waits (ends id pre post m e f) w = inl w
  Step-Waits (arrives others m e) w = inl w
  Step-Waits (departs others fewer m e f) w = inl w
  Step-Waits (expires id m) w = inl (slot-Keeps k job id _ m.system (λ x. refl) w)
  Step-Waits (notices id rest m e f) w = inl w
  Step-Waits (restarts id m e) w = inl w
  Step-Waits (leaves m d) w = inl w
  Step-Waits (closes m s h) w =
      inl (ap (λ (p : Pool). slot_preempt (get_elem? p.slots k)) (shut_down-pool m.system s h) ∙ w)

  pub Steps-Fate : {m n : Machine} → Steps store m n → Waits k job m.system → Fate store k job m n
  Steps-Fate (here m) w = still_waits w
  Steps-Fate (next l m n h s) w = go (Steps-Fate h w)
    where
      go : Fate store k job l m → Fate store k job l n
      go (still_waits u) = elim (Step-Waits s u) [
        | inl v ↦ still_waits v
        | inr (a, b) ↦ was_taken m n h s a u b (here n)
      ]
      go (was_taken before after f t a u b g) =
          was_taken before after f t a u b (next after m n g s)
