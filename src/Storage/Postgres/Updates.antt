-- ===== src/Storage/Postgres/Updates.antt =====
-- internal/storage/postgres.go: the methods of `PostgresStorage` on one job. The columns that an
-- INSERT writes are those of the other backend.
use rjq.Common.{ℕ, ◌+◌, String, Option, none, some, if◌then◌else◌, str_eq}
use rjq.Common.Monad.{ok, err, Method, ◌>>=◌, ◌>>◌, return, need}
use rjq.Models.{Payload, Job, Status, pending, processing, completed, failed, Message, empty}
use rjq.Errors.{Error, json, about, wrap, wrapping, jobs_completed, jobs_failed, jobs_retried}
use rjq.Storage.Rows.{Row, find, update}
use rjq.Storage.Database.{Driver, Database, exec, query, count_metric}
use rjq.Storage.Sqlite.Scan.{to_job}
use rjq.Storage.Sqlite.Updates.{save_marshalled, if_failed, require_affected}

-- No bytes leave the payload nil.
abbrev pub read_payload : Driver → String → Option Payload
read_payload d payload_bytes =
    if str_eq payload_bytes "" then some none else d.unmarshal payload_bytes

abbrev pub pg_scan_job : Driver → Row → Option Job
pg_scan_job d r = elim (read_payload d r.payload) [ none ↦ none | some p ↦ some (to_job r p) ]

unfoldable pub save_job : Job → Method Database Error (Unit {0})
save_job job db = save_marshalled job (db.driver.marshal job.payload) db

abbrev pub scan_found : Option Row → Method Database Error (Option Job)
scan_found none db = (ok none, db)
scan_found (some r) db = elim (pg_scan_job db.driver r) [
  | none ↦ (err (wrap "failed to get job" (wrap "failed to unmarshal payload" json)), db)
  | some j ↦ (ok (some j), db)
]

unfoldable pub get_job : String → Method Database Error (Option Job)
get_job id = wrapping "failed to get job" (query (find id)) >>= scan_found

-- `CASE WHEN $1 IN ('completed', 'failed') THEN $3 ELSE processed_at END`
abbrev pub pg_processed_at : Status → ℕ → Option ℕ → Option ℕ
pg_processed_at completed now old = some now
pg_processed_at failed now old = some now
pg_processed_at pending now old = old
pg_processed_at processing now old = old

-- The assignments of `UpdateJobStatus` and of `UpdateJobRetry`.
abbrev pub pg_set_status : Status → Message → ℕ → Row → Row
pg_set_status status err_msg now r = record r {
  status = status;
  error_message = some err_msg;
  updated_at = now;
  processed_at = pg_processed_at status now r.processed_at;
}

abbrev pub pg_set_retry : Status → ℕ → Message → ℕ → Row → Row
pg_set_retry status retry_count err_msg now r = record r {
  status = status;
  retry_count = retry_count;
  error_message = some err_msg;
  updated_at = now;
  processed_at = pg_processed_at status now r.processed_at;
}

-- The two `switch status` at the end of the methods.
abbrev pub pg_count_status : Status → String → Method Database Error (Unit {0})
pg_count_status completed q = count_metric (jobs_completed q)
pg_count_status failed q = count_metric (jobs_failed q)
pg_count_status pending q = return tt
pg_count_status processing q = return tt

abbrev pub pg_count_retry : Status → String → Method Database Error (Unit {0})
pg_count_retry pending q = count_metric (jobs_retried q)
pg_count_retry failed q = count_metric (jobs_failed q)
pg_count_retry processing q = return tt
pg_count_retry completed q = return tt

unfoldable pub update_job_status : String → Status → Message → ℕ → Method Database Error (Unit {0})
unfolding get_job
update_job_status id status err_msg now = do
  found ← wrapping "failed to load job for status update" (get_job id)
  job ← need (about "job not found" id) found
  wrapping "failed to update job status" (exec (update id (pg_set_status status err_msg now)))
  pg_count_status status job.queue_type

unfoldable pub update_job_retry :
    String → Status → ℕ → Message → ℕ → Method Database Error (Unit {0})
unfolding get_job
update_job_retry id status retry_count err_msg now = do
  found ← wrapping "failed to load job for retry update" (get_job id)
  job ← need (about "job not found" id) found
  wrapping "failed to update job retry"
      (exec (update id (pg_set_retry status retry_count err_msg now)))
  pg_count_retry status job.queue_type

abbrev pub pg_set_requeued : ℕ → Row → Row
pg_set_requeued now r = record r { status = pending; updated_at = now }

unfoldable pub requeue : String → ℕ → Method Database Error (Unit {0})
requeue id now = wrapping "failed to requeue job" (exec (update id (pg_set_requeued now)))

-- `retry_count` is left as it is.
abbrev pub set_reset : ℕ → ℕ → Row → Row
set_reset extra_retries now r = record r {
  status = pending;
  max_retries = r.max_retries + extra_retries;
  error_message = some empty;
  updated_at = now;
}

unfoldable pub reset_for_retry : String → ℕ → ℕ → Method Database Error (Unit {0})
reset_for_retry id extra_retries now db =
    (wrapping "failed to reset job for retry"
          (exec (update id (if_failed (set_reset extra_retries now))))
        >> require_affected (find id db.rows))
      db
