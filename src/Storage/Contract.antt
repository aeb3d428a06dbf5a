-- ===== src/Storage/Contract.antt =====
-- What the queues rely on of a storage, whichever backend it is. Both backends meet it.
pub mod Sqlite
pub mod Postgres
pub mod Agreement
use rjq.Common.{ℕ, suc, ◌+◌, String, Option, none, some, List, [], ◌∷◌, ◌++◌, ◌≡◌, ◌⊎◌, keep}
use rjq.Common.Monad.{Result, ok, err, Method}
use rjq.Models.{is_processing, Job, Status, pending, processing, completed, failed, Message}
use rjq.Errors.{Error, Metric, jobs_completed, jobs_failed, jobs_retried}
use rjq.Storage.Rows.{Row, find, update, before, older, order_by}
use rjq.Storage.Rows.Laws.{ids}
use rjq.Storage.Database.{Driver, Database, Healthy, tick, scan_rows}
use rjq.Storage.Sqlite.Scan.{new_row}
use rjq.Storage.Sqlite.Updates.{set_status, set_retry, set_requeued, if_failed}
use rjq.Storage.Sqlite.Lists.{is_unfinished}
use rjq.Storage.Interface.{Storage}

-- Whatever the driver answers, no row comes or goes.
abbrev pub Keeps : {A : Type 0} → Method Database Error A → Type 0
Keeps m = (db : Database) → (ids (m db).1.rows ≡ ids db.rows) × ((m db).1.driver ≡ db.driver)

-- The columns that a job read from a row carries.
pub record Reads (r : Row) (j : Job) : Type 0 where
  pub id : j.id ≡ r.id
  pub queue_type : j.queue_type ≡ r.queue_type
  pub priority : j.priority ≡ r.priority
  pub status : j.status ≡ r.status
  pub retry_count : j.retry_count ≡ r.retry_count
  pub max_retries : j.max_retries ≡ r.max_retries
  pub created_at : j.created_at ≡ r.created_at
  pub updated_at : j.updated_at ≡ r.updated_at

abbrev pub counted_status : Status → String → List Metric → List Metric
counted_status completed q ms = jobs_completed q ∷ ms
counted_status failed q ms = jobs_failed q ∷ ms
counted_status pending q ms = ms
counted_status processing q ms = ms

abbrev pub counted_retry : Status → String → List Metric → List Metric
counted_retry pending q ms = jobs_retried q ∷ ms
counted_retry failed q ms = jobs_failed q ∷ ms
counted_retry processing q ms = ms
counted_retry completed q ms = ms

-- The database after an UPDATE of one row, and after a row was read and then updated.
abbrev pub updated : String → (Row → Row) → Database → Database
updated id f db = record db { rows = update id f db.rows; calls = suc db.calls }

-- A driver that answers, and a row with the key that scans to a job.
pub record Stored (scan : Driver → Row → Option Job) (id : String) (r : Row) (j : Job)
    (db : Database) : Type 0 where
  pub healthy : Healthy db.driver
  pub found : find id db.rows ≡ some r
  pub scans : scan db.driver r ≡ some j

-- What `ResetForRetry` makes of a failed row: the two backends differ in the retry count.
pub record Resets (extra : ℕ) (r s : Row) : Type 0 where
  pub id : s.id ≡ r.id
  pub payload : s.payload ≡ r.payload
  pub status : s.status ≡ pending
  pub max_retries : s.max_retries ≡ r.max_retries + extra
  pub retry_count : (s.retry_count ≡ 0) ⊎ (s.retry_count ≡ r.retry_count)

-- `SaveJob` adds one row, of a key that was not there, or fails and leaves the table alone.
abbrev pub Saves : Job → Database → Result Error (Unit {0}) × Database → Type 0
Saves job db (ok _, db') =
    (text : String) × (find job.id db.rows ≡ none)
    × (db'.rows ≡ db.rows ++ (new_row job text ∷ []))
    × (db'.driver ≡ db.driver)
Saves job db (err _, db') = (db'.rows ≡ db.rows) × (db'.driver ≡ db.driver)

pub record Contract (s : Storage) : Type 0 where
  pub scan : Driver → Row → Option Job
  pub scan_reads : (d : Driver) (r : Row) (j : Job) → scan d r ≡ some j → Reads r j
  pub scan_again :
      (d : Driver) (r s : Row) (j : Job)
      → s.payload ≡ r.payload
      → scan d r ≡ some j
      → (i : Job) × (scan d s ≡ some i)
  pub reset : ℕ → ℕ → Row → Row
  pub reset_resets : (extra now : ℕ) (r : Row) → Resets extra r (reset extra now r)
  pub save_saves : (job : Job) (db : Database) → Saves job db (s.save_job job db)
  pub get_keeps : (id : String) → Keeps (s.get_job id)
  pub status_keeps :
      (id : String) (st : Status) (m : Message) (now : ℕ) → Keeps (s.update_job_status id st m now)
  pub retry_keeps :
      (id : String) (st : Status) (n : ℕ) (m : Message) (now : ℕ)
      → Keeps (s.update_job_retry id st n m now)
  pub requeue_keeps : (id : String) (now : ℕ) → Keeps (s.requeue id now)
  pub reset_keeps : (id : String) (extra now : ℕ) → Keeps (s.reset_for_retry id extra now)
  pub list_keeps : Keeps s.list_pending_jobs
  pub get_found :
      (id : String) (r : Row) (j : Job) (db : Database)
      → Stored scan id r j db
      → s.get_job id db ≡ (ok (some j), tick db)
  pub get_missing :
      (id : String) (db : Database)
      → Healthy db.driver
      → find id db.rows ≡ none
      → s.get_job id db ≡ (ok none, tick db)
  pub status_found :
      (id : String) (st : Status) (m : Message) (now : ℕ) (r : Row) (j : Job) (db : Database)
      → Stored scan id r j db
      → s.update_job_status id st m now db ≡ (
        ok tt,
        record (updated id (set_status st m now) (tick db)) {
          metrics = counted_status st j.queue_type db.metrics;
        },
      )
  pub retry_found :
      (id : String) (st : Status) (n : ℕ) (m : Message) (now : ℕ) (r : Row) (j : Job)
      (db : Database)
      → Stored scan id r j db
      → s.update_job_retry id st n m now db ≡ (
        ok tt,
        record (updated id (set_retry st n m now) (tick db)) {
          metrics = counted_retry st j.queue_type db.metrics;
        },
      )
  pub requeue_found :
      (id : String) (now : ℕ) (db : Database)
      → Healthy db.driver
      → s.requeue id now db ≡ (ok tt, updated id (set_requeued now) db)
  pub reset_found :
      (id : String) (extra now : ℕ) (r : Row) (db : Database)
      → Healthy db.driver
      → find id db.rows ≡ some r
      → r.status ≡ failed
      → s.reset_for_retry id extra now db ≡ (ok tt, updated id (if_failed (reset extra now)) db)
  pub list_found :
      (js : List Job) (db : Database)
      → Healthy db.driver
      → scan_rows (scan db.driver) (order_by before (keep is_unfinished db.rows)) ≡ some js
      → s.list_pending_jobs db ≡ (ok js, tick db)
  pub processing_found :
      (js : List Job) (db : Database)
      → Healthy db.driver
      → scan_rows (scan db.driver) (order_by older (keep (λ r. is_processing r.status) db.rows))
        ≡ some js
      → s.get_processing_jobs db ≡ (ok js, tick db)
