-- ===== src/Queue/Router/Recovery/Takes.antt =====
-- How many copies of a job a queue takes in when it is recovered.
use rjq.Common.{
  ℕ, ◌+◌, ◌≤◌, true, false, ◌&&◌, List, [], ◌∷◌, ◌++◌, map, ◌≡◌, refl, ap, ◌∙◌, inl, inr, length,
  str_eq, arith, Bool-cases,
}
use rjq.Common.Monad.{ok}
use rjq.Models.{Job, queue_type_priority}
use rjq.Queue.Delivery.Reads.{ready, enqueue_jobs, Accepts}
use rjq.Queue.Delivery.Repeats.Due.{Test, copies}
use rjq.Queue.Memory.{MemoryQueue}
use rjq.Queue.Memory
use rjq.Queue.Memory.Channel.{Accepts-room}
use rjq.Queue.Sorted.{SortedQueue}
use rjq.Queue.Sorted
use rjq.Queue.Sorted.Order.{insert, insert_locked-insert}

copies-append : (q : Test) (js ks : List Job) → copies q (js ++ ks) ≡ copies q js + copies q ks
copies-append q [] ks = omega arith
copies-append q (j ∷ js) ks = ground (arith, copies-append q js ks)

copies-ready : (q : Test) (js : List Job) → copies q (map ready js) ≡ copies q js
copies-ready q [] = refl
copies-ready q (j ∷ js) = ground (arith, copies-ready q js)

copies-insert :
    (q : Test) (job : Job) (js : List Job) → copies q (insert job js) ≡ copies q (job ∷ js)
unfolding insert
copies-insert q job [] = refl
copies-insert q job (j ∷ js) = ground (arith, copies-insert q job js)

-- What a FIFO queue with room takes in.
pub fifo_takes :
    (jobs : List Job) (m : MemoryQueue)
    → m.closed ≡ false
    → length m.jobs + length jobs ≤ m.capacity
    → Accepts Memory.enqueue Memory.skips jobs m
      × ((q : Test)
          → copies q (enqueue_jobs Memory.enqueue Memory.skips jobs m).jobs
            ≡ copies q m.jobs + copies q jobs)
fifo_takes jobs m o h =
    let (a, e) = Accepts-room jobs m o h in
    (
      a,
      λ q.
          ap (λ (m : MemoryQueue). copies q m.jobs) e
          ∙ copies-append q m.jobs (map ready jobs)
          ∙ ap (λ n. copies q m.jobs + n) (copies-ready q jobs),
    )

-- The jobs of the priority queue alone.
abbrev pub urgent : Test → Test
urgent q id queue_type = q id queue_type && str_eq queue_type queue_type_priority

pub sorted_takes :
    (jobs : List Job) (s : SortedQueue)
    → s.closed ≡ false
    → Accepts Sorted.enqueue Sorted.skips jobs s
      × ((q : Test)
          → copies q (enqueue_jobs Sorted.enqueue Sorted.skips jobs s).jobs
            ≡ copies q s.jobs + copies (urgent q) jobs)
sorted_takes [] s o = (tt, λ q. omega arith)
sorted_takes (job ∷ jobs) s o = elim (Bool-cases (str_eq job.queue_type queue_type_priority)) [
  | inr e ↦
      let (a, f) = sorted_takes jobs s o in
      let same : enqueue_jobs Sorted.enqueue Sorted.skips (job ∷ jobs) s
          ≡ enqueue_jobs Sorted.enqueue Sorted.skips jobs s =
        simp e refl in
      (
        simp e (inl refl, a),
        λ q. ap (λ (s : SortedQueue). copies q s.jobs) same ∙ skipped q _ (f q) e,
      )
  | inl e ↦
      let t : SortedQueue = record s {
        jobs = Sorted.insert_locked (ready job) s.jobs;
        signal = true;
      } in
      let x : Sorted.enqueue (ready job) s ≡ (ok tt, t) = unfold Sorted.enqueue in simp o refl in
      let (a, f) = sorted_takes jobs t o in
      let same : enqueue_jobs Sorted.enqueue Sorted.skips (job ∷ jobs) s
          ≡ enqueue_jobs Sorted.enqueue Sorted.skips jobs t =
        simp (e, x) refl in
      (
        simp (e, x) (inr refl, a),
        λ q. ap (λ (s : SortedQueue). copies q s.jobs) same ∙ f q ∙ taken q e,
      )
]
  where
    skipped :
        (q : Test) (n : ℕ)
        → n ≡ copies q s.jobs + copies (urgent q) jobs
        → str_eq job.queue_type queue_type_priority ≡ false
        → n ≡ copies q s.jobs + copies (urgent q) (job ∷ jobs)
    skipped q n h e = ground (arith, h)

    taken :
        (q : Test)
        → str_eq job.queue_type queue_type_priority ≡ true
        → copies q (Sorted.insert_locked (ready job) s.jobs) + copies (urgent q) jobs
          ≡ copies q s.jobs + copies (urgent q) (job ∷ jobs)
    taken q e =
        let p =
          ap (copies q) (insert_locked-insert (ready job) s.jobs)
          ∙ copies-insert q (ready job) s.jobs in
        ground (arith, p)
