-- ===== src/Storage/Sqlite/Updates.antt =====
-- internal/storage/sqlite.go: the methods of `SQLiteStorage` on one job.
use rjq.Common.{ℕ, ◌+◌, String, Bool, true, false, Option, none, some, [], ◌∷◌, ◌++◌, if◌then◌else◌}
use rjq.Common.Monad.{ok, err, Method, ◌>>=◌, ◌>>◌, return, throw, need}
use rjq.Models.{Job, Status, pending, processing, completed, failed, is_failed, Message, empty}
use rjq.Errors.{Error, json, text, about, wrap, wrapping, jobs_completed, jobs_failed, jobs_retried}
use rjq.Storage.Rows.{Row, find, update, finished_at}
use rjq.Storage.Database.{Database, exec, query, count_metric, tick}
use rjq.Storage.Sqlite.Scan.{marshal_payload, scan_job, new_row}

-- `INSERT`. The primary key refuses a second row with the id: an error of the driver.
abbrev pub insert_unless : Row → Option Row → Method Database Error (Unit {0})
insert_unless r none db = exec (λ rows. rows ++ (r ∷ [])) db
insert_unless r (some _) db = (err Error.driver, tick db)

abbrev pub insert_row : Row → Method Database Error (Unit {0})
insert_row r db = insert_unless r (find r.id db.rows) db

abbrev pub save_marshalled : Job → Option String → Method Database Error (Unit {0})
save_marshalled job none db = (err (wrap "failed to marshal payload" json), db)
save_marshalled job (some payload_str) db =
    wrapping "failed to save job" (insert_row (new_row job payload_str)) db

unfoldable pub save_job : Job → Method Database Error (Unit {0})
save_job job db = save_marshalled job (marshal_payload db.driver job.payload) db

-- `scanJob` over the row that `QueryRow` found; no row is no error.
abbrev pub scan_found : Option Row → Method Database Error (Option Job)
scan_found none db = (ok none, db)
scan_found (some r) db = elim (scan_job db.driver r) [
  | none ↦ (err (wrap "failed to get job" (wrap "failed to unmarshal payload" json)), db)
  | some j ↦ (ok (some j), db)
]

unfoldable pub get_job : String → Method Database Error (Option Job)
get_job id = wrapping "failed to get job" (query (find id)) >>= scan_found

-- The assignments of `UpdateJobStatus` and of `UpdateJobRetry`.
abbrev pub set_status : Status → Message → ℕ → Row → Row
set_status status err_msg now r = record r {
  status = status;
  error_message = some err_msg;
  updated_at = now;
  processed_at = finished_at status now r.processed_at;
}

abbrev pub set_retry : Status → ℕ → Message → ℕ → Row → Row
set_retry status retry_count err_msg now r = record r {
  status = status;
  retry_count = retry_count;
  error_message = some err_msg;
  updated_at = now;
  processed_at = finished_at status now r.processed_at;
}

-- The two `switch status` at the end of the methods.
abbrev pub count_status : Status → String → Method Database Error (Unit {0})
count_status completed q = count_metric (jobs_completed q)
count_status failed q = count_metric (jobs_failed q)
count_status pending q = return tt
count_status processing q = return tt

abbrev pub count_retry : Status → String → Method Database Error (Unit {0})
count_retry pending q = count_metric (jobs_retried q)
count_retry failed q = count_metric (jobs_failed q)
count_retry processing q = return tt
count_retry completed q = return tt

unfoldable pub update_job_status : String → Status → Message → ℕ → Method Database Error (Unit {0})
unfolding get_job
update_job_status id status err_msg now = do
  found ← wrapping "failed to load job for status update" (get_job id)
  job ← need (about "job not found" id) found
  wrapping "failed to update job status" (exec (update id (set_status status err_msg now)))
  count_status status job.queue_type

unfoldable pub update_job_retry :
    String → Status → ℕ → Message → ℕ → Method Database Error (Unit {0})
unfolding get_job
update_job_retry id status retry_count err_msg now = do
  found ← wrapping "failed to load job for retry update" (get_job id)
  job ← need (about "job not found" id) found
  wrapping "failed to update job retry"
      (exec (update id (set_retry status retry_count err_msg now)))
  count_retry status job.queue_type

abbrev pub set_requeued : ℕ → Row → Row
set_requeued now r = record r { status = pending; updated_at = now }

unfoldable pub requeue : String → ℕ → Method Database Error (Unit {0})
requeue id now = wrapping "failed to requeue job" (exec (update id (set_requeued now)))

abbrev pub set_reset : ℕ → ℕ → Row → Row
set_reset extra_retries now r = record r {
  status = pending;
  retry_count = 0;
  max_retries = r.max_retries + extra_retries;
  error_message = some empty;
  updated_at = now;
}

-- `WHERE id = ? AND status = 'failed'`: the row by its key, and only if it has failed.
abbrev pub if_failed : (Row → Row) → Row → Row
if_failed f r = if is_failed r.status then f r else r

-- `result.RowsAffected() == 0`, of the table before the statement.
abbrev pub affects_none : Option Row → Bool
affects_none none = true
affects_none (some r) = if is_failed r.status then false else true

abbrev pub require_affected : Option Row → Method Database Error (Unit {0})
require_affected found =
    if affects_none found then throw (text "job not found or not in failed state") else return tt

unfoldable pub reset_for_retry : String → ℕ → ℕ → Method Database Error (Unit {0})
reset_for_retry id extra_retries now db =
    (wrapping "failed to reset job for retry"
          (exec (update id (if_failed (set_reset extra_retries now))))
        >> require_affected (find id db.rows))
      db
