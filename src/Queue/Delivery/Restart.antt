-- ===== src/Queue/Delivery/Restart.antt =====
-- `Recover` as a whole: every unfinished job comes back, and none is left in processing.
use rjq.Common.{
  ℕ, String, Bool, true, false, some, List, [], ◌∷◌, ◌≡◌, refl, sym, ap, subst, ◌∙◌, ◌⊎◌, inl, inr,
  All, keep, str_eq, eq_iff, arith, Bool-cases,
}
use rjq.Common.Monad.{Result, ok, Method}
use rjq.Models.{Job, pending, is_processing, empty}
use rjq.Errors.{Error}
use rjq.Storage.Rows.{Row, update, before, order_by}
use rjq.Storage.Rows.Listing.{
  Any, All-map, All-keep, All-order_by, Any-order_by, kept-Any, scan_rows-All, scan_rows-Any,
}
use rjq.Storage.Database.{Database, tick, scan_rows}
use rjq.Storage.Interface.{Storage}
use rjq.Storage.Sqlite.Updates.{set_status}
use rjq.Storage.Sqlite.Lists.{is_unfinished}
use rjq.Storage.Contract.{Contract}
use rjq.Queue.Delivery.{Backed, recover}
use rjq.Queue.Delivery.Reads.{Ready, Known, reset_rows, enqueue_jobs, Accepts, reset_all, AllKnown}
use rjq.Queue.Delivery.Recovery.{recover_jobs-Done}

Known-cons : (id : String) (s : Row) (rows : List Row) → Known id rows → Known id (s ∷ rows)
Known-cons id s rows (r, e) = elim (Bool-cases (str_eq id s.id)) [
  | inl b ↦ (s, simp b)
  | inr b ↦ (r, simp (b, e))
]

-- Each row of the table is found by its key, or one with the same key is.
Known-self : (rows : List Row) → All (λ r. Known r.id rows) rows
Known-self [] = tt
Known-self (r ∷ rows) = (
  (r, rw ((eq_iff r.id r.id).1 refl)),
  All-map _ _ (λ s k. Known-cons s.id r rows k) rows (Known-self rows),
)

-- A row in processing has a job on the list that will reset it.
pub Resets : Row → Job → Type 0
Resets r j = (is_processing j.status ≡ true) × (str_eq j.id r.id ≡ true)

pub Covered : List Job → Row → Type 0
Covered jobs r = (is_processing r.status ≡ false) ⊎ Any (Resets r) jobs

All-update_by :
    (P Q : Row → Type 0) (i : String) (f : Row → Row) (rows : List Row)
    → ((r : Row) → P r → str_eq i r.id ≡ true → Q (f r))
    → ((r : Row) → P r → str_eq i r.id ≡ false → Q r)
    → All P rows
    → All Q (update i f rows)
All-update_by P Q i f [] h k a = tt
All-update_by P Q i f (r ∷ rows) h k a = elim (Bool-cases (str_eq i r.id)) [
  | inl e ↦ rw e (h r a.0 e, All-update_by P Q i f rows h k a.1)
  | inr e ↦ rw e (k r a.0 e, All-update_by P Q i f rows h k a.1)
]

Covered-next :
    (now : ℕ) (job : Job) (jobs : List Job) (rows : List Row)
    → All (Covered (job ∷ jobs)) rows
    → All (Covered jobs) (reset_rows now job rows)
unfolding Covered Resets
Covered-next now job jobs rows h = elim (Bool-cases (is_processing job.status)) [
  | inl p ↦ rw p (
      All-update_by _ _ job.id (set_status pending empty now) rows (λ r c e. inl refl)
        (λ r c e. other r c e) h)
  | inr p ↦ rw p (All-map _ _ (λ r c. spared p r c) rows h)
]
  where
    other : (r : Row) → Covered (job ∷ jobs) r → str_eq job.id r.id ≡ false → Covered jobs r
    other r (inl a) e = inl a
    other r (inr (inl b)) e = cc (b.1)
    other r (inr (inr c)) e = inr c

    spared : is_processing job.status ≡ false → (r : Row) → Covered (job ∷ jobs) r → Covered jobs r
    spared p r (inl a) = inl a
    spared p r (inr (inl b)) = cc (b.0)
    spared p r (inr (inr c)) = inr c

abbrev pub none_skipped : Job → Bool
none_skipped job = false

Covered-All :
    {Q : Type 0} (enqueue : Job → Method Q Error (Unit {0})) (now : ℕ) (jobs : List Job)
    (rows : List Row)
    → All (Covered jobs) rows
    → All (λ r. is_processing r.status ≡ false) (reset_all enqueue none_skipped now jobs rows)
unfolding Covered
Covered-All enqueue now [] rows h = All-map _ _ (λ r c. done r c) rows h
  where
    done : (r : Row) → Covered [] r → is_processing r.status ≡ false
    done r (inl a) = a
    done r (inr b) = absurd b
Covered-All enqueue now (job ∷ jobs) rows h =
    Covered-All enqueue now jobs (reset_rows now job rows) (Covered-next now job jobs rows h)

module _ {Q : Type 0} (store : Storage) (c : Contract store)
    (enqueue : Job → Method Q Error (Unit {0})) where
  -- What `ListPendingJobs` returns on a ready database.
  pub record Listed (db : Database) (jobs : List Job) : Type 0 where
    pub scanned :
        scan_rows (c.scan db.driver) (order_by before (keep is_unfinished db.rows)) ≡ some jobs
    pub known : AllKnown jobs db.rows
    pub covered : All (Covered jobs) db.rows

  pub listed : (db : Database) → Ready c.scan db → (jobs : List Job) × Listed db jobs
  unfolding Covered Resets
  listed db h =
      let rows = order_by before (keep is_unfinished db.rows) in
      let (jobs, e, known) =
        scan_rows-All (c.scan db.driver) (λ r. Known r.id db.rows) (λ j. Known j.id db.rows)
          (λ r j s k. rw (c.scan_reads db.driver r j s).id k) rows
          (All-order_by before _ (keep is_unfinished db.rows)
            (All-keep _ is_unfinished db.rows (both db.rows (Known-self db.rows) h.scans))) in
      (
        jobs,
        record {
          scanned = e;
          known = known;
          covered =
              All-map _ _ (λ r k. covers jobs e r k) db.rows
                (kept-Any (λ r s. r ≡ s) is_unfinished db.rows);
        },
      )
    where
      both :
          (rows : List Row)
          → All (λ r. Known r.id db.rows) rows
          → All (λ r. (j : Job) × (c.scan db.driver r ≡ some j)) rows
          → All (λ r. Known r.id db.rows × ((j : Job) × (c.scan db.driver r ≡ some j))) rows
      both [] a b = tt
      both (r ∷ rows) a b = ((a.0, b.0), both rows a.1 b.1)

      covers :
          (jobs : List Job)
          → scan_rows (c.scan db.driver) (order_by before (keep is_unfinished db.rows)) ≡ some jobs
          → (r : Row)
          → (r ≡ r → is_unfinished r ≡ true → Any (λ s. r ≡ s) (keep is_unfinished db.rows))
          → Covered jobs r
      covers jobs e r k = elim (Bool-cases (is_processing r.status)) [
        | inr p ↦ inl p
        | inl p ↦ inr (
            scan_rows-Any (c.scan db.driver) (λ s. r ≡ s) (Resets r) (λ s j x q. resets r s j p x q)
              (order_by before (keep is_unfinished db.rows)) jobs e
              (Any-order_by before (λ s. r ≡ s) (keep is_unfinished db.rows)
                (k refl (unfinished r p))))
      ]
        where
          unfinished : (r : Row) → is_processing r.status ≡ true → is_unfinished r ≡ true
          unfinished r p = ground arith

          resets :
              (r s : Row) (j : Job)
              → is_processing r.status ≡ true
              → c.scan db.driver s ≡ some j
              → r ≡ s
              → Resets r j
          resets r s j p x q =
              let reads = c.scan_reads db.driver s j x in
              (
                ap is_processing (reads.status ∙ ap (λ (t : Row). t.status) (sym q)) ∙ p,
                (eq_iff j.id r.id).1 (reads.id ∙ ap (λ (t : Row). t.id) (sym q)),
              )

  -- A recovery that lists some jobs: it returns without an error, the queue has taken the listed
  -- jobs in their order, with those in processing made pending, and no row is in processing.
  pub record Restarts (s : Backed Q) (jobs : List Job) (x : Result Error (Unit {0}) × Backed Q)
      : Type 0 where
    pub returns : x.0 ≡ ok tt
    pub queue' : x.1.queue ≡ enqueue_jobs enqueue none_skipped jobs s.queue
    pub settled : All (λ r. is_processing r.status ≡ false) x.1.db.rows

  restarts :
      (recovered : Method Database Error (Unit {0}))
      → ((db : Database)
          → ((recovered db).0 ≡ ok tt)
            × ((recovered db).1.rows ≡ db.rows)
            × ((recovered db).1.driver ≡ db.driver))
      → (now : ℕ) (s : Backed Q) (jobs : List Job) → Ready c.scan s.db
      → Listed s.db jobs
      → Accepts enqueue none_skipped jobs s.queue
      → Restarts s jobs (recover store enqueue none_skipped recovered now s)
  unfolding recover
  restarts recovered quiet now s jobs h l a =
      let t : Backed Q = record s { db = tick s.db } in
      let done =
        recover_jobs-Done store c enqueue none_skipped recovered quiet now jobs t
          (record { healthy = h.healthy; scans = h.scans }) l.known a in
      simp (c.list_found jobs s.db h.healthy l.scanned) (record {
        returns = done.returns;
        queue' = done.queue';
        settled = rw done.rows' (Covered-All enqueue now jobs s.db.rows l.covered);
      })

  -- `Recover` on a driver that answers, over a table whose rows scan, into a queue that takes the
  -- unfinished jobs of the table: it restarts them all.
  pub recover-Restarts :
      (recovered : Method Database Error (Unit {0}))
      → ((db : Database)
          → ((recovered db).0 ≡ ok tt)
            × ((recovered db).1.rows ≡ db.rows)
            × ((recovered db).1.driver ≡ db.driver))
      → (now : ℕ) (s : Backed Q) (jobs : List Job) → Ready c.scan s.db
      → scan_rows (c.scan s.db.driver) (order_by before (keep is_unfinished s.db.rows)) ≡ some jobs
      → Accepts enqueue none_skipped jobs s.queue
      → Restarts s jobs (recover store enqueue none_skipped recovered now s)
  recover-Restarts recovered quiet now s jobs h e a =
      let (js, l) = listed s.db h in
      let same : js ≡ jobs = ground (arith, l.scanned) in
      restarts recovered quiet now s jobs h (subst (Listed s.db) same l) a
