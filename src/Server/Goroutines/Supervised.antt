-- ===== src/Server/Goroutines/Supervised.antt =====
-- The end of a worker's goroutine, its restart, and the end of the pool.
use rjq.Common.{
  pos, inl, inr, ℕ, suc, true, Option, none, some, List, [], ◌∷◌, ◌++◌, ◌≡◌, refl, sym, ap, ◌∙◌,
  subst, ltb, length, get_elem?, set, Bool-cases, arith,
}
use rjq.Queue.Router.{Router}
use rjq.Queue.Router
use rjq.Worker.{System}
use rjq.Worker.Lives.{
  Lives, restarting, signal_death, end_worker, restart_worker, count_up, count_down, panics,
  arrives, departs, notices, restarts, leaves, gone, watching,
}
use rjq.Worker.Lives.Supervision
use rjq.Worker.Lives.Supervision.{occurs, occurs-append}
use rjq.Server.{stopped, shut_down}
use rjq.Server.Goroutines.{Phase, looking, dying, over, Machine, lives_of, with_lives, goes_to}
use rjq.Server.Goroutines.Phases.{
  in_slot, busy_in, busy_count, lives_in, lives_at, over_of_dead, map-set_same, length-set,
  elem_below, total-set, lives_at-set,
}
use rjq.Server.Goroutines.Consistency.{Inv}

-- What the steps of `Lives` but `Stop` leave alone.
end_worker-same :
    (id : ℕ) (others : List ℕ) (s : Lives)
    → ((end_worker id others s).count ≡ s.count) × ((end_worker id others s).done ≡ s.done)
unfolding end_worker signal_death
end_worker-same id others s = elim (Bool-cases (ltb (length s.worker_died) s.count)) [
  | inl e ↦ rw e (refl, refl)
  | inr e ↦ rw e (refl, refl)
]

end_worker-running :
    (id : ℕ) (others : List ℕ) (s : Lives) → (end_worker id others s).running ≡ others
unfolding end_worker
end_worker-running id others s = refl

put-lives :
    (m : Machine) (l : Lives)
    → l.count ≡ m.system.pool.count
    → l.done ≡ m.system.pool.done
    → lives_of (with_lives m l) ≡ l
put-lives m l e f = λ i. record l { count = sym e i; done = sym f i }

-- The lives change to `l`, in which worker `id` has come to the phase `q`.
module _ (n id : ℕ) (p q : Phase) (m : Machine) (l : Lives) (at : get_elem? m.phases id ≡ some p)
    (slot : in_slot q ≡ in_slot p) (busy : busy_count (set m.phases id q) ≡ busy_count m.phases)
    (v : Inv n m) where
  lives-Inv :
      l.count ≡ m.system.pool.count
      → l.done ≡ m.system.pool.done
      → ((i : ℕ) → occurs i l.running ≡ lives_at (get_elem? (set m.phases id q) i))
      → Supervision.Inv n l
      → Inv n (let k = with_lives m l in goes_to id q k k.system)
  lives-Inv e f places h = record {
    slots = v.slots ∙ sym (map-set_same in_slot m.phases id p q at slot);
    gauge = v.gauge ∙ ap pos (sym busy);
    places = places;
    workers = length-set m.phases id q ∙ v.workers;
    lives = subst (Supervision.Inv n) (sym (put-lives m l e f)) h;
  }

pub ends-Inv :
    (n id : ℕ) (pre post : List ℕ) (m : Machine)
    → get_elem? m.phases id ≡ some dying
    → m.running ≡ pre ++ (id ∷ post)
    → Inv n m
    → Inv n (
        let k = with_lives m (end_worker id (pre ++ post) (lives_of m)) in
        goes_to id over k k.system)
ends-Inv n id pre post m at e v =
    let l = end_worker id (pre ++ post) (lives_of m) in
    let (count, done) = end_worker-same id (pre ++ post) (lives_of m) in
    lives-Inv n id dying over m l at refl
      (omega (arith, total-set busy_in m.phases id dying over at)) v count done
      (λ i.
        ap (occurs i) (end_worker-running id (pre ++ post) (lives_of m))
        ∙ occurs-append i pre post
        ∙ ground (
          arith,
          v.places i,
          ap (occurs i) e,
          occurs-append i pre (id ∷ post),
          lives_at-set m.phases id i dying over at,
        ))
      (Supervision.Step-Inv n (panics pre post id (lives_of m) e) v.lives)

pub arrives-Inv :
    (n others : ℕ) (m : Machine)
    → m.starting ≡ suc others
    → Inv n m
    → Inv n (with_lives m (count_up others (lives_of m)))
unfolding count_up
arrives-Inv n others m e v = record {
  slots = v.slots;
  gauge = v.gauge;
  places = v.places;
  workers = v.workers;
  lives = Supervision.Step-Inv n (arrives others (lives_of m) e) v.lives;
}

pub departs-Inv :
    (n others fewer : ℕ) (m : Machine)
    → m.leaving ≡ suc others
    → m.system.pool.alive ≡ suc fewer
    → Inv n m
    → Inv n (with_lives m (count_down others fewer (lives_of m)))
unfolding count_down
departs-Inv n others fewer m e f v = record {
  slots = v.slots;
  gauge = v.gauge;
  places = v.places;
  workers = v.workers;
  lives = Supervision.Step-Inv n (departs others fewer (lives_of m) e f) v.lives;
}

-- The worker that is about to be started again has no goroutine.
pub restarted-over :
    (n id : ℕ) (m : Machine)
    → m.supervisor ≡ restarting id
    → Inv n m
    → get_elem? m.phases id ≡ some over
restarted-over n id m e v =
    let place = (rw e at v.lives.one_place id) in
    let one : occurs id (id ∷ []) ≡ 1 = ground arith in
    let dead : occurs id m.running ≡ 0 = ground (arith, place, one) in
    let below : ltb id (length m.phases) ≡ true = ground (arith, place, one, v.workers) in
    let (p, at) = elem_below m.phases id below in
    let still : lives_in p ≡ 0 = sym (ap lives_at at) ∙ sym (v.places id) ∙ dead in
    at ∙ ap some (over_of_dead p still)

pub restarts-Inv :
    (n id : ℕ) (m : Machine)
    → m.supervisor ≡ restarting id
    → Inv n m
    → Inv n (let k = with_lives m (restart_worker id (lives_of m)) in goes_to id looking k k.system)
unfolding restart_worker
restarts-Inv n id m e v =
    let at = restarted-over n id m e v in
    lives-Inv n id over looking m (restart_worker id (lives_of m)) at refl
      (omega (arith, total-set busy_in m.phases id over looking at)) v refl refl
      (λ i. ground (arith, v.places i, lives_at-set m.phases id i over looking at))
      (Supervision.Step-Inv n (restarts id (lives_of m) e) v.lives)

pub notices-Inv :
    (n id : ℕ) (rest : List ℕ) (m : Machine)
    → m.supervisor ≡ watching
    → m.worker_died ≡ id ∷ rest
    → Inv n m
    → Inv n (record m { worker_died = rest; supervisor = restarting id })
notices-Inv n id rest m e f v = record {
  slots = v.slots;
  gauge = v.gauge;
  places = v.places;
  workers = v.workers;
  lives = Supervision.Step-Inv n (notices id rest (lives_of m) e f) v.lives;
}

pub leaves-Inv :
    (n : ℕ) (m : Machine)
    → m.system.pool.done ≡ true
    → Inv n m
    → Inv n (record m { supervisor = gone })
leaves-Inv n m d v = record {
  slots = v.slots;
  gauge = v.gauge;
  places = v.places;
  workers = v.workers;
  lives = Supervision.Step-Inv n (leaves (lives_of m) d) v.lives;
}

-- The pool after the end of `main`.
pub shut_down-pool :
    (s t : System) → shut_down s ≡ some t → t.pool ≡ record (s.pool) { done = true }
unfolding shut_down
shut_down-pool s t = go (Router.close s.router)
  where
    go : (o : Option Router) → stopped s o ≡ some t → t.pool ≡ record (s.pool) { done = true }
    go none h = cc
    go (some r) h = ap (λ (o : Option System). elim o [ none ↦ s.pool | some u ↦ u.pool ]) (sym h)

stopped-Inv :
    (n : ℕ) (s : Lives) → Supervision.Inv n s → Supervision.Inv n (record s { done = true })
stopped-Inv n s v = record {
  lost = v.lost;
  one_place = v.one_place;
  all_places = v.all_places;
  counted = v.counted;
  capacity = v.capacity;
  none_dropped = v.none_dropped;
  none_lost = λ f. cc;
  supervised = λ g. refl;
}

pub closes-Inv :
    (n : ℕ) (m : Machine) (s : System)
    → shut_down m.system ≡ some s
    → Inv n m
    → Inv n (record m { system = s })
closes-Inv n m s h v =
    let e = shut_down-pool m.system s h in
    let moved : Inv n
        (record m { system = record s { pool = record (m.system.pool) { done = true } } }) =
      record {
        slots = v.slots;
        gauge = v.gauge;
        places = v.places;
        workers = v.workers;
        lives = stopped-Inv n (lives_of m) v.lives;
      } in
    subst (λ x. Inv n (record m { system = record s { pool = x } })) (sym e) moved
