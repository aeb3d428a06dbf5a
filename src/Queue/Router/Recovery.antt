-- ===== src/Queue/Router/Recovery.antt =====
-- `Recover` of the router: how often each unfinished job of the table comes into the queues.
pub mod Takes
use rjq.Common.{ℕ, ◌+◌, ◌≤◌, true, false, ◌≡◌, refl, sym, ap, subst, ◌∙◌, length, arith}
use rjq.Common.Monad.{Result, ok, err, Method, return, follow, ◌>>◌}
use rjq.Errors.{Error, rewrap, wrapping, jobs_recovered}
use rjq.Storage.Rows.Counting.{count-true}
use rjq.Storage.Database.{count_metric}
use rjq.Storage.Interface.{Storage}
use rjq.Storage.Contract.{Contract}
use rjq.Queue.Delivery.{Backed}
use rjq.Queue.Delivery.Repeats.Due.{Test, copies, due}
use rjq.Queue.Delivery.Repeats.{Sorts, recover-Recovers}
use rjq.Queue.Memory.{MemoryQueue}
use rjq.Queue.Memory
use rjq.Queue.Sorted.{SortedQueue}
use rjq.Queue.Sorted
use rjq.Queue.Router.{Router, on_priority, on_rate_limited, recover}
use rjq.Queue.Router.Recovery.Takes.{fifo_takes, urgent, sorted_takes}

abbrev pub everything : Test
everything id queue_type = true

-- The FIFO and the rate-limited queue have each one more copy of every unfinished job, and the
-- priority queue one of each that is of its type.
pub record Repeated (r r' : Router) : Type 0 where
  pub in_fifo : (q : Test) → copies q r'.fifo.jobs ≡ copies q r.fifo.jobs + due q r.db.rows
  pub in_priority :
      (q : Test) → copies q r'.priority.jobs ≡ copies q r.priority.jobs + due (urgent q) r.db.rows
  pub in_rate_limited :
      (q : Test)
      → copies q r'.rate_limited.memory.jobs ≡ copies q r.rate_limited.memory.jobs + due q r.db.rows

-- Queues that are open, with room for the unfinished jobs.
pub record Roomy (r : Router) : Type 0 where
  pub fifo_open : r.fifo.closed ≡ false
  pub priority_open : r.priority.closed ≡ false
  pub rate_limited_open : r.rate_limited.memory.closed ≡ false
  pub fifo_room : length r.fifo.jobs + due everything r.db.rows ≤ r.fifo.capacity
  pub rate_limited_room :
      length r.rate_limited.memory.jobs + due everything r.db.rows ≤ r.rate_limited.memory.capacity

abbrev after_fifo : Router → Backed MemoryQueue → Router
after_fifo r s = record r { db = s.db; fifo = s.queue }

abbrev after_priority : Router → Backed SortedQueue → Router
after_priority r s = record r { db = s.db; priority = s.queue }

abbrev after_rate_limited : Router → Backed MemoryQueue → Router
after_rate_limited r s = record r {
  db = s.db;
  rate_limited = record (r.rate_limited) { memory = s.queue };
}

module _ (store : Storage) (c : Contract store) (now : ℕ) where
  -- A queue's recovery that takes its jobs, with what it puts into the queue.
  fifo_part :
      (s : Backed MemoryQueue)
      → Sorts store c s.db
      → s.queue.closed ≡ false
      → length s.queue.jobs + due everything s.db.rows ≤ s.queue.capacity
      → let x = Memory.recover store now s in
        (x.0 ≡ ok tt)
        × Sorts store c x.1.db
        × ((q : Test) → due q x.1.db.rows ≡ due q s.db.rows)
        × ((q : Test) → copies q x.1.queue.jobs ≡ copies q s.queue.jobs + due q s.db.rows)
  fifo_part s h o room =
      let (jobs, n, f) =
        recover-Recovers store c Memory.enqueue Memory.skips (count_metric jobs_recovered)
          (λ db. (refl, refl, refl)) now s h in
      let (a, taken) =
        fifo_takes jobs s.queue o (omega (arith, room, sym (count-true jobs) ∙ n everything)) in
      let d = f a in
      (
        d.returns,
        d.sorts,
        d.same_due,
        λ q.
            ap (λ (m : MemoryQueue). copies q m.jobs) d.queue'
            ∙ taken q
            ∙ ap (λ k. copies q s.queue.jobs + k) (n q),
      )

  sorted_part :
      (s : Backed SortedQueue)
      → Sorts store c s.db
      → s.queue.closed ≡ false
      → let x = Sorted.recover store now s in
        (x.0 ≡ ok tt)
        × Sorts store c x.1.db
        × ((q : Test) → due q x.1.db.rows ≡ due q s.db.rows)
        × ((q : Test) → copies q x.1.queue.jobs ≡ copies q s.queue.jobs + due (urgent q) s.db.rows)
  sorted_part s h o =
      let (jobs, n, f) =
        recover-Recovers store c Sorted.enqueue Sorted.skips (return tt) (λ db. (refl, refl, refl))
          now s h in
      let (a, taken) = sorted_takes jobs s.queue o in
      let d = f a in
      (
        d.returns,
        d.sorts,
        d.same_due,
        λ q.
            ap (λ (m : SortedQueue). copies q m.jobs) d.queue'
            ∙ taken q
            ∙ ap (λ k. copies q s.queue.jobs + k) (n (urgent q)),
      )

  answered : {S : Type 0} (x : Result Error (Unit {0}) × S) → x.0 ≡ ok tt → x ≡ (ok tt, x.1)
  answered (ok _, s) e = refl
  answered (err e, s) h = cc

  abbrev from_rate_limited : Method Router Error (Unit {0})
  from_rate_limited = wrapping "rate-limited recover" (on_rate_limited (Memory.recover store now))

  abbrev from_priority : Method Router Error (Unit {0})
  from_priority = do
    wrapping "priority recover" (on_priority (Sorted.recover store now))
    from_rate_limited

  -- `Recover` of the router on a driver that answers, over a table whose rows scan and have different
  -- keys, with open queues that have room: it succeeds, and each unfinished job of the table then
  -- stands once more in the FIFO queue and once more in the rate-limited queue, whatever its queue
  -- type, and if it is a priority job once more in the priority queue too.
  pub recover-Repeated :
      (r : Router)
      → Sorts store c r.db
      → Roomy r
      → let (x, r') = recover store now r in (x ≡ ok tt) × Repeated r r'
  unfolding recover
  recover-Repeated r h room =
      let b : Backed MemoryQueue = record { db = r.db; queue = r.fifo } in
      let x = Memory.recover store now b in
      let (e, h1, n1, f1) = fifo_part b h room.fifo_open room.fifo_room in
      let p : Backed SortedQueue = record { db = x.1.db; queue = r.priority } in
      let y = Sorted.recover store now p in
      let (g, h2, n2, f2) = sorted_part p h1 room.priority_open in
      let m : Backed MemoryQueue = record { db = y.1.db; queue = r.rate_limited.memory } in
      let z = Memory.recover store now m in
      let (k, h3, n3, f3) =
        fifo_part m h2 room.rate_limited_open
          (omega (arith, room.rate_limited_room, n1 everything, n2 everything)) in
      let t : Router = record r { db = x.1.db; fifo = x.1.queue } in
      let u : Router = record t { db = y.1.db; priority = y.1.queue } in
      let run : recover store now r ≡ (ok tt, after_rate_limited u z.1) =
        ap (λ v. follow (λ _. from_priority) (rewrap "fifo recover" (v.0, after_fifo r v.1)))
          (answered x e)
        ∙ ap
            (λ v.
              follow (λ _. from_rate_limited)
                (rewrap "priority recover" (v.0, after_priority t v.1)))
            (answered y g)
        ∙ ap (λ v. rewrap "rate-limited recover" (v.0, after_rate_limited u v.1)) (answered z k) in
      subst (λ v. (v.0 ≡ ok tt) × Repeated r v.1) (sym run)
        (
          refl,
          record {
            in_fifo = f1;
            in_priority = λ q. f2 q ∙ ap (λ n. copies q r.priority.jobs + n) (n1 (urgent q));
            in_rate_limited =
                λ q. f3 q ∙ ap (λ n. copies q r.rate_limited.memory.jobs + n) (n2 q ∙ n1 q);
          },
        )
