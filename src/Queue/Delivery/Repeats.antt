-- ===== src/Queue/Delivery/Repeats.antt =====
-- What `Recover` leaves for the next `Recover`: the unfinished rows, each with its key and its queue
-- type, are the same before it and after it.
pub mod Due
use rjq.Common.{
  ℕ, Bool, true, some, List, [], ◌∷◌, ◌≡◌, refl, sym, subst, ◌∙◌, inl, inr, keep, All, arith,
  Bool-cases,
}
use rjq.Common.Monad.{Result, ok, Method}
use rjq.Models.{Job, pending, empty}
use rjq.Errors.{Error}
use rjq.Storage.Rows.{Row, before, order_by}
use rjq.Storage.Rows.Laws.{All-update}
use rjq.Storage.Rows.Counting.{count-scan_rows, count-order_by}
use rjq.Storage.Rows.Listing.{All-order_by, scan_rows-All}
use rjq.Storage.Database.{Database, Healthy, scan_rows, tick}
use rjq.Storage.Interface.{Storage}
use rjq.Storage.Sqlite.Updates.{set_status}
use rjq.Storage.Sqlite.Lists.{is_unfinished}
use rjq.Storage.Contract.{Contract}
use rjq.Queue.Delivery.{Backed, recover}
use rjq.Queue.Delivery.Reads.{Ready, AllKnown, enqueue_jobs, Accepts}
use rjq.Queue.Delivery.Recovery.{recover_jobs-Done}
use rjq.Queue.Delivery.Restart.{listed}
use rjq.Queue.Delivery.Repeats.Due.{
  Test, copies, due, Spares, AllSpares, IsKeyed, IsKeyed-Spares, IsKeyed-update, due-update,
  reset_all-keeps, count-both,
}

module _ (store : Storage) (c : Contract store) where
  -- A database that answers, with rows that scan and one row for a key.
  pub record Sorts (db : Database) : Type 0 where
    pub ready_db : Ready c.scan db
    pub keyed : IsKeyed db.rows

  pub record Lists (db : Database) (jobs : List Job) : Type 0 where
    pub scanned_jobs :
        scan_rows (c.scan db.driver) (order_by before (keep is_unfinished db.rows)) ≡ some jobs
    pub known : AllKnown jobs db.rows
    pub spares : AllSpares db.rows jobs
    pub counts : (q : Test) → copies q jobs ≡ due q db.rows

  lists :
      {Q : Type 0} (enqueue : Job → Method Q Error (Unit {0})) (db : Database)
      → Sorts db
      → (jobs : List Job) × Lists db jobs
  unfolding AllSpares
  lists enqueue db h =
      let (jobs, l) = listed store c enqueue db h.ready_db in
      let rows = order_by before (keep is_unfinished db.rows) in
      let (js, e, spared) =
        scan_rows-All (c.scan db.driver) (λ r. Spares db.rows r.id) (λ j. Spares db.rows j.id)
          (λ r j k s. rw (c.scan_reads db.driver r j k).id s) rows
          (All-order_by before _ (keep is_unfinished db.rows)
            (unfinished db.rows (IsKeyed-Spares db.rows h.keyed) h.ready_db.scans)) in
      let same : js ≡ jobs = ground (arith, l.scanned, e) in
      (
        jobs,
        record {
          scanned_jobs = l.scanned;
          known = l.known;
          spares = subst (λ js. All (λ (j : Job). Spares db.rows j.id) js) same spared;
          counts = λ q.
              count-scan_rows (λ r. q r.id r.queue_type) (λ j. q j.id j.queue_type)
                (c.scan db.driver) rows jobs (λ r j k. agrees q r j k) l.scanned
              ∙ count-order_by (λ r. q r.id r.queue_type) before (keep is_unfinished db.rows)
              ∙ count-both is_unfinished (λ r. q r.id r.queue_type) db.rows;
        },
      )
    where
      agrees :
          (q : Test) (r : Row) (j : Job)
          → c.scan db.driver r ≡ some j
          → q j.id j.queue_type ≡ q r.id r.queue_type
      agrees q r j k =
          let reads = c.scan_reads db.driver r j k in rw (reads.id, reads.queue_type) refl

      unfinished :
          (rs : List Row)
          → All (λ r. is_unfinished r ≡ true → Spares db.rows r.id) rs
          → All (λ r. (j : Job) × (c.scan db.driver r ≡ some j)) rs
          → All
              (λ r. Spares db.rows r.id × ((j : Job) × (c.scan db.driver r ≡ some j)))
              (keep is_unfinished rs)
      unfinished [] a b = tt
      unfinished (r ∷ rs) a b = elim (Bool-cases (is_unfinished r)) [
        | inl e ↦ simp e ((a.0 e, b.0), unfinished rs a.1 b.1)
        | inr e ↦ simp e (unfinished rs a.1 b.1)
      ]

  -- A recovery of one queue, after which the table is again fit for one.
  pub record Recovers {Q : Type 0} (enqueue : Job → Method Q Error (Unit {0})) (skip : Job → Bool)
      (jobs : List Job) (s : Backed Q) (x : Result Error (Unit {0}) × Backed Q) : Type 0 where
    pub returns : x.0 ≡ ok tt
    pub queue' : x.1.queue ≡ enqueue_jobs enqueue skip jobs s.queue
    pub sorts : Sorts x.1.db
    pub same_due : (q : Test) → due q x.1.db.rows ≡ due q s.db.rows

  pub recover-Recovers :
      {Q : Type 0} (enqueue : Job → Method Q Error (Unit {0})) (skip : Job → Bool)
      (recovered : Method Database Error (Unit {0}))
      (quiet : (db : Database)
        → ((recovered db).0 ≡ ok tt)
          × ((recovered db).1.rows ≡ db.rows)
          × ((recovered db).1.driver ≡ db.driver))
      (now : ℕ) (s : Backed Q)
      → Sorts s.db
      → (jobs : List Job) × ((q : Test) → copies q jobs ≡ due q s.db.rows)
        × (Accepts enqueue skip jobs s.queue
            → Recovers enqueue skip jobs s (recover store enqueue skip recovered now s))
  unfolding recover
  recover-Recovers {Q} enqueue skip recovered quiet now s h =
      let (jobs, l) = lists enqueue s.db h in
      let t : Backed Q = record s { db = tick s.db } in
      (
        jobs,
        l.counts,
        λ a.
            let done =
              recover_jobs-Done store c enqueue skip recovered quiet now jobs t
                (record { healthy = h.ready_db.healthy; scans = h.ready_db.scans }) l.known a in
            simp (c.list_found jobs s.db h.ready_db.healthy l.scanned_jobs) (record {
              returns = done.returns;
              queue' = done.queue';
              sorts = record {
                ready_db = record {
                  healthy = subst Healthy (sym done.driver') h.ready_db.healthy;
                  scans =
                      rw (done.rows', done.driver')
                        (reset_all-keeps enqueue skip now
                          (λ rows. All (λ r. (j : Job) × (c.scan s.db.driver r ≡ some j)) rows)
                          (λ id rows k p.
                            All-update _ id (set_status pending empty now) rows
                              (λ r x. c.scan_again s.db.driver r _ x.0 refl x.1) p)
                          jobs s.db.rows l.spares h.ready_db.scans);
                };
                keyed = rw done.rows' (
                    reset_all-keeps enqueue skip now IsKeyed
                      (λ id rows k p. IsKeyed-update id now rows p) jobs s.db.rows l.spares
                      h.keyed);
              };
              same_due = λ q. rw done.rows' (
                  reset_all-keeps enqueue skip now (λ rows. due q rows ≡ due q s.db.rows)
                    (λ id rows k p. due-update q id now rows k ∙ p) jobs s.db.rows l.spares refl);
            }),
      )
