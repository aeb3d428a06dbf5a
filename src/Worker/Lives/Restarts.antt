-- ===== src/Worker/Lives/Restarts.antt =====
-- The supervisor brings every worker back.
use rjq.Common.{ℕ, zero, suc, ◌+◌, length, false, List, [], ◌∷◌, ◌≡◌, refl, arith}
use rjq.Worker.Lives.{
  Supervisor, watching, restarting, gone, Lives, started, restart_worker, count_up, count_down,
  arrives, departs, notices, restarts, Steps, here, next,
}
use rjq.Worker.Lives.Supervision.{Inv, notices-Inv, restart_worker-Inv, Step-Inv, started-Steps-Inv}

-- Steps that lead to a pool in which all of `n` workers live, and the counter says so.
abbrev pub Revives : ℕ → Lives → Type 0
Revives n s = (t : Lives) × Steps s t × (length t.running ≡ n) × (t.alive ≡ n) × (t.done ≡ false)

-- The last goroutines count themselves down, once those that have started are counted.
departing-Revives :
    (n k : ℕ) (s t : Lives)
    → t.leaving ≡ k
    → t.starting ≡ 0
    → length t.running ≡ n
    → t.done ≡ false
    → Steps s t
    → Inv n t
    → Revives n s
unfolding count_down
departing-Revives n zero s t e z l d h v = (t, h, l, omega (arith, e, z, l, v.counted), d)
departing-Revives n (suc k) s t e z l d h v =
    let f : t.alive ≡ suc (n + k) = omega (arith, e, z, l, v.counted) in
    let step = departs k (n + k) t e f in
    departing-Revives n k s (count_down k (n + k) t) refl z l d (next s t _ h step)
      (Step-Inv n step v)

arriving-Revives :
    (n k : ℕ) (s t : Lives)
    → t.starting ≡ k
    → length t.running ≡ n
    → t.done ≡ false
    → Steps s t
    → Inv n t
    → Revives n s
unfolding count_up
arriving-Revives n zero s t z l d h v = departing-Revives n t.leaving s t refl z l d h v
arriving-Revives n (suc k) s t z l d h v =
    let step = arrives k t z in
    arriving-Revives n k s (count_up k t) refl l d (next s t _ h step) (Step-Inv n step v)

watching-Revives :
    (n : ℕ) (died : List ℕ) (s t : Lives)
    → t.worker_died ≡ died
    → t.supervisor ≡ watching
    → t.done ≡ false
    → Steps s t
    → Inv n t
    → Revives n s
unfolding restart_worker
watching-Revives n [] s t e w d h v =
    let places = (rw (e, w) at v.all_places) in
    arriving-Revives n t.starting s t refl (omega (arith, places, v.none_lost d)) d h v
watching-Revives n (id ∷ rest) s t e w d h v =
    let u : Lives = record t { worker_died = rest; supervisor = restarting id } in
    watching-Revives n rest s (restart_worker id u) refl refl d
      (next s u _ (next s t u h (notices id rest t w e)) (restarts id u refl))
      (restart_worker-Inv n id u refl (notices-Inv n id rest t w e v))

any-Revives :
    (n : ℕ) (x : Supervisor) (s : Lives) → s.supervisor ≡ x → s.done ≡ false → Inv n s → Revives n s
unfolding restart_worker
any-Revives n watching s w d v = watching-Revives n s.worker_died s s refl w d (here s) v
any-Revives n (restarting id) s w d v =
    watching-Revives n s.worker_died s (restart_worker id s) refl refl d
      (next s s _ (here s) (restarts id s w)) (restart_worker-Inv n id s w v)
any-Revives n gone s w d v = let stopped = v.supervised w in cc (stopped, d)

-- From every state that a pool of `n` workers comes to, after however many panics, as long as it is
-- not stopped, further steps lead to one that is not stopped and in which all `n` workers have a
-- goroutine and the counter is `n`.
pub started-Steps-Revives : (n : ℕ) (s : Lives) → Steps (started n) s → s.done ≡ false → Revives n s
started-Steps-Revives n s h d = any-Revives n s.supervisor s refl d (started-Steps-Inv n s h)
