-- ===== src/Server/Goroutines/Nearing.antt =====
-- A stopped pool with a worker that has not ended can make a step towards its end.
use rjq.Common.{
  ℕ, ◌<◌, true, false, Option, none, some, List, [], ◌++◌, ◌≡◌, refl, sym, ap, ◌∙◌, subst, ltb,
  length, get_elem?, set, Bool-cases, inl, inr, arith,
}
use rjq.Storage.Interface.{Storage}
use rjq.Queue.RateLimited.{Delivery}
use rjq.Queue.Router.{Pass}
use rjq.Worker.{System, worker_round, leave_job, succeeds, context_of}
use rjq.Worker.Lives.{Lives, signal_death, end_worker}
use rjq.Worker.Lives.Supervision.{occurs}
use rjq.Server.Goroutines.{
  Phase, looking, spotted, awaiting, taken, marked, registered, processing, returned, judged,
  busy_yet, registered_yet, dying, over, Machine, after_round, Step, goes_round, marks, registers,
  counts, returns, judges, settles, uncounts, clears, ends, lives_of,
}
use rjq.Server.Goroutines.Phases.{total, total-set, lives_at}
use rjq.Server.Goroutines.Ranks.{NoneAsks, asking, none_asks, rank, split_at, set-NoneAsks}
use rjq.Server.Goroutines.Consistency.{Inv}
use rjq.Server.Goroutines.Reached.{settle-SamePool}

pub round_done :
    (id : ℕ) (passes : List Pass) (s : System)
    → s.pool.done ≡ true
    → worker_round id passes s ≡ (none, s)
unfolding worker_round
round_done id passes s d = rw d

pub leave_job-done : (id : ℕ) (s : System) → (leave_job id s).pool.done ≡ s.pool.done
unfolding leave_job
leave_job-done id s = refl

end_worker-supervisor :
    (id : ℕ) (others : List ℕ) (s : Lives) → (end_worker id others s).supervisor ≡ s.supervisor
unfolding end_worker signal_death
end_worker-supervisor id others s = elim (Bool-cases (ltb (length s.worker_died) s.count)) [
  | inl e ↦ rw e refl
  | inr e ↦ rw e refl
]

module _ (store : Storage) where
  -- A step towards the end.
  abbrev pub Nears : Machine → Type 0
  Nears m =
      (n : Machine) × Step store m n
      × (total rank n.phases < total rank m.phases)
      × (n.system.pool.done ≡ true)
      × (n.supervisor ≡ m.supervisor)
      × NoneAsks n.phases

  nearer :
      (m : Machine) (i : ℕ) (p q : Phase) (n : Machine)
      → Step store m n
      → n.phases ≡ set m.phases i q
      → get_elem? m.phases i ≡ some p
      → rank q < rank p
      → n.system.pool.done ≡ true
      → n.supervisor ≡ m.supervisor
      → asking q ≡ 0
      → NoneAsks m.phases
      → Nears m
  nearer m i p q n s f e less d g other w = (
    n,
    s,
    (rw f (omega (arith, less, total-set rank m.phases i p q e))),
    d,
    g,
    subst NoneAsks (sym f) (set-NoneAsks m.phases i q w other),
  )

  pub nears :
      (count : ℕ) (m : Machine) (i : ℕ) (p : Phase)
      → Inv count m
      → m.system.pool.done ≡ true
      → NoneAsks m.phases
      → get_elem? m.phases i ≡ some p
      → 0 < rank p
      → Nears m
  nears count m i over v d w e h = absurd (omega arith)
  nears count m i (taken j) v d w e h =
      nearer m i _ (marked j) _ (marks i j 0 m e) refl e (omega arith) d refl refl w
  nears count m i (marked j) v d w e h =
      nearer m i _ (registered j) _ (registers i j m e) refl e (omega arith) d refl refl w
  nears count m i (registered j) v d w e h =
      nearer m i _ (processing j) _ (counts i j m e) refl e (omega arith) d refl refl w
  nears count m i (processing j) v d w e h =
      nearer m i _ (returned succeeds j) _ (returns i j succeeds m e) refl e (omega arith) d refl
        refl w
  nears count m i (returned o j) v d w e h =
      nearer m i _ (judged o (context_of (get_elem? m.system.pool.slots i)) j) _ (judges i j o m e)
        refl e (omega arith) d refl refl w
  nears count m i (judged o x j) v d w e h =
      nearer m i _ (busy_yet false j) _ (settles i j o x 0 m e) refl e (omega arith)
        ((settle-SamePool store o x j 0 m.system).done ∙ d) refl refl w
  nears count m i (busy_yet b j) v d w e h =
      nearer m i _ (registered_yet b j) _ (uncounts i b j m e) refl e (omega arith) d refl refl w
  nears count m i (registered_yet true j) v d w e h =
      nearer m i _ dying _ (clears i true j m e) refl e (omega arith)
        (leave_job-done i m.system ∙ d) refl refl w
  nears count m i (registered_yet false j) v d w e h =
      nearer m i _ looking _ (clears i false j m e) refl e (omega arith)
        (leave_job-done i m.system ∙ d) refl refl w
  nears count m i spotted v d w e h = absurd (omega (arith, none_asks m.phases i spotted w e))
  nears count m i (awaiting j) v d w e h =
      absurd (omega (arith, none_asks m.phases i (awaiting j) w e))
  nears count m i looking v d w e h =
      let r = round_done i [] m.system d in
      nearer m i _ dying _
        (goes_round i [] dying m e tt (ap (λ (x : Option Delivery × System). after_round x.0) r))
        refl e (omega arith) (ap (λ (x : Option Delivery × System). x.1.pool.done) r ∙ d) refl refl
        w
  nears count m i dying v d w e h =
      let one : 0 < occurs i m.running = omega (arith, v.places i, ap lives_at e) in
      let (pre, post, f) = split_at i m.running one in
      nearer m i _ over _ (ends i pre post m e f) refl e (omega arith) d
        (end_worker-supervisor i (pre ++ post) (lives_of m)) refl w
