-- ===== src/Queue/Delivery/Recovery.antt =====
-- `Recover` on a driver that answers: which jobs it enqueues, and what it does to the rows.
use rjq.Common.{
  ℕ, String, Bool, true, some, List, [], ◌∷◌, ◌≡◌, refl, ap, ◌∙◌, ◌⊎◌, inl, inr, if◌then◌else◌, All,
  Bool-cases,
}
use rjq.Common.Monad.{Result, ok, err, Method, follow}
use rjq.Models.{Job, pending, is_processing, empty}
use rjq.Errors.{Error, rewrap}
use rjq.Storage.Rows.{Row}
use rjq.Storage.Rows.Laws.{All-update}
use rjq.Storage.Database.{Driver, Database, tick}
use rjq.Storage.Interface.{Storage}
use rjq.Storage.Sqlite.Updates.{set_status}
use rjq.Storage.Contract.{Contract, updated}
use rjq.Queue.Delivery.{Backed, on_db, set_queue, reset_processing, recover_job, recover_jobs}
use rjq.Queue.Delivery.Reads.{
  Ready, Known, AllKnown, All-find, Known-update, ready, reset_rows, enqueue_jobs, Accepts,
  reset_all,
}

module _ {Q : Type 0} (store : Storage) (c : Contract store)
    (enqueue : Job → Method Q Error (Unit {0})) (skip : Job → Bool)
    (recovered : Method Database Error (Unit {0}))
    (quiet : (db : Database)
      → ((recovered db).0 ≡ ok tt)
        × ((recovered db).1.rows ≡ db.rows)
        × ((recovered db).1.driver ≡ db.driver))
    (now : ℕ) where
  -- The state after some jobs were gone through without an error.
  pub record Done (rows : List Row) (q : Q) (s : Backed Q) (x : Result Error (Unit {0}) × Backed Q)
      : Type 0 where
    pub returns : x.0 ≡ ok tt
    pub rows' : x.1.db.rows ≡ rows
    pub queue' : x.1.queue ≡ q
    pub driver' : x.1.db.driver ≡ s.db.driver

  pub reset-Ready :
      (id : String) (db : Database)
      → Ready c.scan db
      → Known id db.rows
      → (j : Job) × (store.update_job_status id pending empty now db
          ≡ (ok tt, updated id (set_status pending empty now) (tick db)))
  reset-Ready id db h (r, e) =
      let (j, scans) = All-find _ id db.rows r h.scans e in
      (
        j,
        c.status_found id pending empty now r j db
            (record { healthy = h.healthy; found = e; scans = scans }),
      )

  -- One job that is not skipped and that the queue takes.
  reset_processing-Done :
      (job : Job) (s : Backed Q)
      → Ready c.scan s.db
      → Known job.id s.db.rows
      → (db : Database) × (reset_processing store enqueue skip recovered now job s
          ≡ (ok (ready job), record s { db = db }))
        × (db.rows ≡ reset_rows now job s.db.rows)
        × (db.driver ≡ s.db.driver)
  unfolding reset_processing
  reset_processing-Done job s h k = elim (Bool-cases (is_processing job.status)) [
    | inr e ↦ (s.db, simp e, simp e, refl)
    | inl e ↦
        let (j, x) = reset-Ready job.id s.db h k in
        (updated job.id (set_status pending empty now) (tick s.db), simp (e, x), simp e, refl)
  ]

  recover_job-Done :
      (job : Job) (s : Backed Q)
      → Ready c.scan s.db
      → Known job.id s.db.rows
      → ((skip job ≡ true) ⊎ ((enqueue (ready job) s.queue).0 ≡ ok tt))
      → Done
          (if skip job then s.db.rows else reset_rows now job s.db.rows)
          (if skip job then s.queue else (enqueue (ready job) s.queue).1)
          s
          (recover_job store enqueue skip recovered now job s)
  unfolding recover_job
  recover_job-Done job s h k a = elim (Bool-cases (skip job)) [
    | inl e ↦ simp e (record { returns = refl; rows' = refl; queue' = refl; driver' = refl })
    | inr e ↦
        let (db, x, rows, driver) = reset_processing-Done job s h k in
        let takes : (enqueue (ready job) s.queue).0 ≡ ok tt = elim a [ inl t ↦ cc | inr t ↦ t ] in
        simp (e, x) (go db rows driver (enqueue (ready job) s.queue) takes)
  ]
    where
      go :
          (db : Database)
          → db.rows ≡ reset_rows now job s.db.rows
          → db.driver ≡ s.db.driver
          → (y : Result Error (Unit {0}) × Q) → y.0 ≡ ok tt
          → Done (reset_rows now job s.db.rows) y.1 s (
              follow
                (λ _. on_db recovered)
                (rewrap "recover: failed to enqueue job" (set_queue db y)))
      go db rows driver (ok u, q) t = record {
        returns = (quiet db).0;
        rows' = (quiet db).1 ∙ rows;
        queue' = refl;
        driver' = (quiet db).2 ∙ driver;
      }
      go db rows driver (err e, q) t = cc

  reset_rows-Known :
      (job : Job) (id : String) (rows : List Row)
      → Known id rows
      → Known id (if skip job then rows else reset_rows now job rows)
  reset_rows-Known job id rows k = elim (Bool-cases (skip job)) [
    | inl e ↦ rw e k
    | inr e ↦ elim (Bool-cases (is_processing job.status)) [
      | inl p ↦ rw (e, p) (Known-update id job.id (set_status pending empty now) rows (λ _. refl) k)
      | inr p ↦ rw (e, p) k
    ]
  ]

  All-Known :
      (job : Job) (jobs : List Job) (rows : List Row)
      → AllKnown jobs rows
      → AllKnown jobs (if skip job then rows else reset_rows now job rows)
  All-Known job [] rows k = tt
  All-Known job (j ∷ jobs) rows k =
      (reset_rows-Known job j.id rows k.0, All-Known job jobs rows k.1)

  pub reset_rows-scans :
      (d : Driver) (job : Job) (rows : List Row)
      → All (λ r. (j : Job) × (c.scan d r ≡ some j)) rows
      → All
          (λ r. (j : Job) × (c.scan d r ≡ some j))
          (if skip job then rows else reset_rows now job rows)
  reset_rows-scans d job rows h = elim (Bool-cases (skip job)) [
    | inl e ↦ rw e h
    | inr e ↦ elim (Bool-cases (is_processing job.status)) [
      | inl p ↦
          rw (e, p)
            (All-update _ job.id (set_status pending empty now) rows
              (λ r x. c.scan_again d r _ x.0 refl x.1) h)
      | inr p ↦ rw (e, p) h
    ]
  ]

  pub recover_jobs-Done :
      (jobs : List Job) (s : Backed Q)
      → Ready c.scan s.db
      → AllKnown jobs s.db.rows
      → Accepts enqueue skip jobs s.queue
      → Done
          (reset_all enqueue skip now jobs s.db.rows)
          (enqueue_jobs enqueue skip jobs s.queue)
          s
          (recover_jobs store enqueue skip recovered now jobs s)
  unfolding recover_jobs
  recover_jobs-Done [] s h k a = record {
    returns = refl;
    rows' = refl;
    queue' = refl;
    driver' = refl;
  }
  recover_jobs-Done (job ∷ jobs) s h k a =
      go (recover_job store enqueue skip recovered now job s) (recover_job-Done job s h k.0 a.0)
        (recover_jobs-Done jobs)
    where
      go :
          (x : Result Error (Unit {0}) × Backed Q)
          → Done
              (if skip job then s.db.rows else reset_rows now job s.db.rows)
              (if skip job then s.queue else (enqueue (ready job) s.queue).1)
              s
              x
          → ((t : Backed Q)
              → Ready c.scan t.db
              → AllKnown jobs t.db.rows
              → Accepts enqueue skip jobs t.queue
              → Done
                  (reset_all enqueue skip now jobs t.db.rows)
                  (enqueue_jobs enqueue skip jobs t.queue)
                  t
                  (recover_jobs store enqueue skip recovered now jobs t))
          → Done
              (reset_all enqueue skip now (job ∷ jobs) s.db.rows)
              (enqueue_jobs enqueue skip (job ∷ jobs) s.queue)
              s
              (follow (λ _. recover_jobs store enqueue skip recovered now jobs) x)
      go (ok u, t) d later =
          let rest =
            later t
              (record {
                healthy = rw d.driver' h.healthy;
                scans =
                    rw (d.rows', d.driver') (reset_rows-scans s.db.driver job s.db.rows h.scans);
              })
              (rw d.rows' (All-Known job jobs s.db.rows k.1)) (rw d.queue' a.1) in
          record {
            returns = rest.returns;
            rows' = rest.rows' ∙ ap (reset_all enqueue skip now jobs) d.rows';
            queue' = rest.queue' ∙ ap (enqueue_jobs enqueue skip jobs) d.queue';
            driver' = rest.driver' ∙ d.driver';
          }
      go (err e, t) d later = cc (d.returns)
