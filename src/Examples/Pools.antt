-- ===== src/Examples/Pools.antt =====
-- The supervision of two workers, of which the first panics and is started again.
use rjq.Common.{[], ◌∷◌, refl}
use rjq.Worker.Lives.{
  Lives, started, end_worker, restart_worker, restarting, Steps, here, next, panics, notices,
  restarts, signal_death, ids_below,
}
use rjq.Worker.Lives.Supervision.{Inv, started-Steps-Inv}
use rjq.Worker.Lives.Restarts.{Revives, started-Steps-Revives}

abbrev two : Lives
two = started 2

abbrev one_died : Lives
one_died = end_worker 0 (1 ∷ []) two

abbrev one_noticed : Lives
one_noticed = record one_died { worker_died = []; supervisor = restarting 0 }

pub two-Steps : Steps two (restart_worker 0 one_noticed)
unfolding started ids_below end_worker signal_death
two-Steps =
    next two one_noticed _
      (next two one_died _ (next two two _ (here two) (panics [] (1 ∷ []) 0 two refl))
        (notices 0 [] one_died refl refl))
      (restarts 0 one_noticed refl)

started-Steps-Inv_example : Inv 2 (restart_worker 0 one_noticed)
started-Steps-Inv_example = started-Steps-Inv 2 (restart_worker 0 one_noticed) two-Steps

pub one-Steps : Steps two one_died
unfolding started ids_below
one-Steps = next two two _ (here two) (panics [] (1 ∷ []) 0 two refl)

started-Steps-Revives_example : Revives 2 one_died
unfolding started end_worker signal_death
started-Steps-Revives_example = started-Steps-Revives 2 one_died one-Steps refl
