-- ===== src/Worker/Lives/Supervision.antt =====
-- The supervisor loses no worker: where the ids of the workers are, in every state of the pool.
use rjq.Common.{
  ℕ, zero, suc, ◌+◌, true, false, List, [], ◌∷◌, ◌++◌, ◌≡◌, refl, ◌∙◌, if◌then◌else◌, ltb, ◌==◌,
  length, length-append, arith,
}
use rjq.Worker.Lives.{
  Supervisor, watching, restarting, gone, Lives, ids_below, started, signal_death, end_worker,
  restart_worker, Step, panics, exits, arrives, departs, count_up, count_down, notices, restarts,
  leaves, stops, Steps, here, next,
}

-- How often a number stands in a list.
abbrev pub occurs : ℕ → List ℕ → ℕ
occurs i [] = 0
occurs i (j ∷ js) = (if i == j then 1 else 0) + occurs i js

pub occurs-append : (i : ℕ) (js ks : List ℕ) → occurs i (js ++ ks) ≡ occurs i js + occurs i ks
occurs-append i [] ks = omega arith
occurs-append i (j ∷ js) ks = omega (arith, occurs-append i js ks)

-- The worker that the supervisor is about to start again.
abbrev pub held : Supervisor → List ℕ
held watching = []
held (restarting id) = id ∷ []
held gone = []

-- `lost` are the workers that the supervisor did not start again because the pool was stopped.
pub record Inv (n : ℕ) (s : Lives) : Type 0 where
  pub lost : List ℕ
  pub one_place :
      (i : ℕ)
      → occurs i s.running + occurs i s.worker_died + occurs i (held s.supervisor) + occurs i lost
        ≡ (if ltb i n then 1 else 0)
  pub all_places :
      length s.running + length s.worker_died + length (held s.supervisor) + length lost ≡ n
  pub counted : s.alive + s.starting ≡ length s.running + s.leaving
  pub capacity : s.count ≡ n
  pub none_dropped : s.dropped ≡ false
  pub none_lost : s.done ≡ false → length lost ≡ 0
  pub supervised : s.supervisor ≡ gone → s.done ≡ true

pub occurs-ids_below : (i n : ℕ) → occurs i (ids_below n) ≡ (if ltb i n then 1 else 0)
unfolding ids_below
occurs-ids_below i zero = ground arith
occurs-ids_below i (suc n) =
    ground (arith, occurs-append i (ids_below n) (n ∷ []), occurs-ids_below i n)

length-ids_below : (n : ℕ) → length (ids_below n) ≡ n
unfolding ids_below
length-ids_below zero = refl
length-ids_below (suc n) = omega (arith, length-append (ids_below n) (n ∷ []), length-ids_below n)

pub started-Inv : (n : ℕ) → Inv n (started n)
unfolding started
started-Inv n = record {
  lost = [];
  one_place = λ i. omega (arith, occurs-ids_below i n);
  all_places = omega (arith, length-ids_below n);
  counted = omega (arith, length-ids_below n);
  capacity = refl;
  none_dropped = refl;
  none_lost = λ _. refl;
  supervised = λ e. cc;
}

end_worker-Inv :
    (n : ℕ) (pre post : List ℕ) (id : ℕ) (s : Lives)
    → s.running ≡ pre ++ (id ∷ post)
    → Inv n s
    → Inv n (end_worker id (pre ++ post) s)
unfolding end_worker signal_death
end_worker-Inv n pre post id s e v =
    let died = s.worker_died in
    let lengths : length s.running ≡ length pre + suc (length post) =
      rw e (length-append pre (id ∷ post)) in
    let lengths' = length-append pre post in
    let longer = length-append died (id ∷ []) in
    let room : ltb (length died) s.count ≡ true =
      ground (arith, v.all_places, v.capacity, lengths) in
    let was : (i : ℕ) → occurs i s.running ≡ occurs i pre + occurs i (id ∷ post) =
      λ i. rw e (occurs-append i pre (id ∷ post)) in
    rw room (record {
      lost = v.lost;
      one_place = λ i.
          omega (arith, was i, occurs-append i pre post, occurs-append i died (id ∷ []))
          ∙ v.one_place i;
      all_places = omega (arith, lengths, lengths', longer) ∙ v.all_places;
      counted = omega (arith, lengths, lengths', v.counted);
      capacity = v.capacity;
      none_dropped = v.none_dropped;
      none_lost = v.none_lost;
      supervised = v.supervised;
    })

count_up-Inv :
    (n others : ℕ) (s : Lives) → s.starting ≡ suc others → Inv n s → Inv n (count_up others s)
unfolding count_up
count_up-Inv n others s e v = record {
  lost = v.lost;
  one_place = v.one_place;
  all_places = v.all_places;
  counted = omega (arith, e, v.counted);
  capacity = v.capacity;
  none_dropped = v.none_dropped;
  none_lost = v.none_lost;
  supervised = v.supervised;
}

count_down-Inv :
    (n others fewer : ℕ) (s : Lives)
    → s.leaving ≡ suc others
    → s.alive ≡ suc fewer
    → Inv n s
    → Inv n (count_down others fewer s)
unfolding count_down
count_down-Inv n others fewer s e f v = record {
  lost = v.lost;
  one_place = v.one_place;
  all_places = v.all_places;
  counted = omega (arith, e, f, v.counted);
  capacity = v.capacity;
  none_dropped = v.none_dropped;
  none_lost = v.none_lost;
  supervised = v.supervised;
}

pub notices-Inv :
    (n id : ℕ) (rest : List ℕ) (s : Lives)
    → s.supervisor ≡ watching
    → s.worker_died ≡ id ∷ rest
    → Inv n s
    → Inv n (record s { worker_died = rest; supervisor = restarting id })
notices-Inv n id rest s e f v =
    let place = λ (i : ℕ). (rw (e, f) at v.one_place i) in
    let places = (rw (e, f) at v.all_places) in
    record {
      lost = v.lost;
      one_place = λ i. omega arith ∙ place i;
      all_places = omega arith ∙ places;
      counted = v.counted;
      capacity = v.capacity;
      none_dropped = v.none_dropped;
      none_lost = v.none_lost;
      supervised = λ g. cc;
    }

pub restart_worker-Inv :
    (n id : ℕ) (s : Lives) → s.supervisor ≡ restarting id → Inv n s → Inv n (restart_worker id s)
unfolding restart_worker
restart_worker-Inv n id s e v =
    let place = λ (i : ℕ). (rw e at v.one_place i) in
    let places = (rw e at v.all_places) in
    record {
      lost = v.lost;
      one_place = λ i. omega arith ∙ place i;
      all_places = omega arith ∙ places;
      counted = omega (arith, v.counted);
      capacity = v.capacity;
      none_dropped = v.none_dropped;
      none_lost = v.none_lost;
      supervised = λ g. cc;
    }

leaves-Inv : (n : ℕ) (s : Lives) → s.done ≡ true → Inv n s → Inv n (record s { supervisor = gone })
leaves-Inv n s d v = record {
  lost = held s.supervisor ++ v.lost;
  one_place = λ i. omega (arith, occurs-append i (held s.supervisor) v.lost) ∙ v.one_place i;
  all_places = omega (arith, length-append (held s.supervisor) v.lost) ∙ v.all_places;
  counted = v.counted;
  capacity = v.capacity;
  none_dropped = v.none_dropped;
  none_lost = λ f. ground arith;
  supervised = λ g. d;
}

stops-Inv : (n : ℕ) (s : Lives) → Inv n s → s.done ≡ false → Inv n (record s { done = true })
stops-Inv n s v d = record {
  lost = v.lost;
  one_place = v.one_place;
  all_places = v.all_places;
  counted = v.counted;
  capacity = v.capacity;
  none_dropped = v.none_dropped;
  none_lost = λ f. cc;
  supervised = λ g. refl;
}

pub Step-Inv : (n : ℕ) {s t : Lives} → Step s t → Inv n s → Inv n t
Step-Inv n (panics pre post id s e) v = end_worker-Inv n pre post id s e v
Step-Inv n (exits pre post id s d e) v = end_worker-Inv n pre post id s e v
Step-Inv n (arrives others s e) v = count_up-Inv n others s e v
Step-Inv n (departs others fewer s e f) v = count_down-Inv n others fewer s e f v
Step-Inv n (notices id rest s e f) v = notices-Inv n id rest s e f v
Step-Inv n (restarts id s e) v = restart_worker-Inv n id s e v
Step-Inv n (leaves s d) v = leaves-Inv n s d v
Step-Inv n (stops s d) v = stops-Inv n s v d

Steps-Inv : (n : ℕ) {s t : Lives} → Steps s t → Inv n s → Inv n t
Steps-Inv n (here s) v = v
Steps-Inv n (next s u t h k) v = Step-Inv n k (Steps-Inv n h v)

-- In every state that a pool of `n` workers comes to, whatever panics, exits and stops happen: each
-- worker either has one goroutine, or one death signal in the channel, or is the one that the
-- supervisor is about to start again, or was lost; the counter of living workers with the goroutines
-- that have not counted themselves yet is the number of the goroutines with those that have signalled
-- their death and not counted themselves down; no death signal has found the channel full; and none is lost unless the pool was
-- stopped.
pub started-Steps-Inv : (n : ℕ) (s : Lives) → Steps (started n) s → Inv n s
started-Steps-Inv n s h = Steps-Inv n h (started-Inv n)
