-- ===== src/Storage/Contract/Sqlite.antt =====
-- The SQLite backend meets the contract.
use rjq.Common.{
  ℕ, suc, String, Option, none, some, List, ◌≡◌, refl, sym, ap, ◌∙◌, inl, inr, Bool-cases, arith,
  keep,
}
use rjq.Common.Monad.{ok}
use rjq.Models.{is_processing, Payload, Job, Status, failed, Message}
use rjq.Errors.{wrapping}
use rjq.Storage.Rows.{Row, find, before, older, order_by}
use rjq.Storage.Rows.Laws.{ids-update}
use rjq.Storage.Database.{Driver, Database, Healthy, tick, scan_rows}
use rjq.Storage.Sqlite.{sqlite}
use rjq.Storage.Sqlite.Scan.{marshal_payload, new_row, unmarshal_payload, to_job, scan_job}
use rjq.Storage.Sqlite.Updates.{
  get_job, update_job_status, update_job_retry, requeue, reset_for_retry, set_status, set_retry,
  set_requeued, set_reset, if_failed, save_job, save_marshalled, insert_unless,
}
use rjq.Storage.Sqlite.Lists.{is_unfinished, list_pending_jobs, get_processing_jobs}
use rjq.Storage.Contract.{
  Keeps, Reads, Saves, Contract, Stored, Resets, counted_status, counted_retry, updated,
}

pub reads : (d : Driver) (r : Row) (j : Job) → scan_job d r ≡ some j → Reads r j
reads d r j h = ground arith

abbrev scan_from : Row → Option Payload → Option Job
scan_from r none = none
scan_from r (some p) = some (to_job r p)

from_payload :
    (r s : Row) (p : Option Payload) (j : Job)
    → scan_from r p ≡ some j
    → (i : Job) × (scan_from s p ≡ some i)
from_payload r s none j h = cc
from_payload r s (some p) j h = (to_job s p, refl)

scan-from : (d : Driver) (r : Row) → scan_job d r ≡ scan_from r (unmarshal_payload d r.payload)
scan-from d r = ground arith

pub again :
    (d : Driver) (r s : Row) (j : Job)
    → s.payload ≡ r.payload
    → scan_job d r ≡ some j
    → (i : Job) × (scan_job d s ≡ some i)
again d r s j e h =
    let (i, k) = from_payload r s (unmarshal_payload d r.payload) j (sym (scan-from d r) ∙ h) in
    (i, scan-from d s ∙ (ap (λ t. scan_from s (unmarshal_payload d t)) e ∙ k))

insert_unless-Saves :
    (job : Job) (db : Database) (text : String) (o : Option Row)
    → find job.id db.rows ≡ o
    → Saves job db (wrapping "failed to save job" (insert_unless (new_row job text) o) db)
insert_unless-Saves job db text (some r) e = (refl, refl)
insert_unless-Saves job db text none e = elim (Bool-cases (db.driver.answers db.calls)) [
  | inl a ↦ simp a (text, e, refl, refl)
  | inr a ↦ simp a (refl, refl)
]

pub save_marshalled-Saves :
    (job : Job) (o : Option String) (db : Database) → Saves job db (save_marshalled job o db)
save_marshalled-Saves job none db = (refl, refl)
save_marshalled-Saves job (some text) db =
    insert_unless-Saves job db text (find job.id db.rows) refl

pub save-Saves : (job : Job) (db : Database) → Saves job db (save_job job db)
unfolding save_job
save-Saves job db = save_marshalled-Saves job (marshal_payload db.driver job.payload) db

pub get-Keeps : (id : String) → Keeps (get_job id)
unfolding get_job
get-Keeps id db = ground arith

pub status-Keeps :
    (id : String) (st : Status) (m : Message) (now : ℕ) → Keeps (update_job_status id st m now)
unfolding update_job_status
status-Keeps id st m now db =
    ground (arith, ids-update id (set_status st m now) db.rows (λ r. refl))

pub retry-Keeps :
    (id : String) (st : Status) (n : ℕ) (m : Message) (now : ℕ)
    → Keeps (update_job_retry id st n m now)
unfolding update_job_retry
retry-Keeps id st n m now db =
    ground (arith, ids-update id (set_retry st n m now) db.rows (λ r. refl))

pub requeue-Keeps : (id : String) (now : ℕ) → Keeps (requeue id now)
unfolding requeue
requeue-Keeps id now db = ground (arith, ids-update id (set_requeued now) db.rows (λ r. refl))

if_failed-id : (f : Row → Row) (r : Row) → (f r).id ≡ r.id → (if_failed f r).id ≡ r.id
if_failed-id f r h = ground arith

pub reset-Keeps : (id : String) (extra now : ℕ) → Keeps (reset_for_retry id extra now)
unfolding reset_for_retry
reset-Keeps id extra now db = ground (
  arith,
  ids-update id (if_failed (set_reset extra now)) db.rows
      (λ r. if_failed-id (set_reset extra now) r refl),
)

pub list-Keeps : Keeps list_pending_jobs
unfolding list_pending_jobs
list-Keeps db = ground arith

pub get_found :
    (id : String) (r : Row) (j : Job) (db : Database)
    → Stored scan_job id r j db
    → get_job id db ≡ (ok (some j), tick db)
unfolding get_job
get_found id r j db s = ground (arith, s.healthy db.calls)

pub get_missing :
    (id : String) (db : Database)
    → Healthy db.driver
    → find id db.rows ≡ none
    → get_job id db ≡ (ok none, tick db)
unfolding get_job
get_missing id db h e = ground (arith, h db.calls)

pub status_found :
    (id : String) (st : Status) (m : Message) (now : ℕ) (r : Row) (j : Job) (db : Database)
    → Stored scan_job id r j db
    → update_job_status id st m now db ≡ (
      ok tt,
      record (updated id (set_status st m now) (tick db)) {
        metrics = counted_status st j.queue_type db.metrics;
      },
    )
unfolding update_job_status
status_found id st m now r j db s = ground (arith, s.healthy db.calls, s.healthy (suc db.calls))

pub retry_found :
    (id : String) (st : Status) (n : ℕ) (m : Message) (now : ℕ) (r : Row) (j : Job) (db : Database)
    → Stored scan_job id r j db
    → update_job_retry id st n m now db ≡ (
      ok tt,
      record (updated id (set_retry st n m now) (tick db)) {
        metrics = counted_retry st j.queue_type db.metrics;
      },
    )
unfolding update_job_retry
retry_found id st n m now r j db s = ground (arith, s.healthy db.calls, s.healthy (suc db.calls))

pub requeue_found :
    (id : String) (now : ℕ) (db : Database)
    → Healthy db.driver
    → requeue id now db ≡ (ok tt, updated id (set_requeued now) db)
unfolding requeue
requeue_found id now db h = ground (arith, h db.calls)

pub reset_found :
    (id : String) (extra now : ℕ) (r : Row) (db : Database)
    → Healthy db.driver
    → find id db.rows ≡ some r
    → r.status ≡ failed
    → reset_for_retry id extra now db ≡ (ok tt, updated id (if_failed (set_reset extra now)) db)
unfolding reset_for_retry
reset_found id extra now r db h e f = ground (arith, h db.calls)

pub list_found :
    (js : List Job) (db : Database)
    → Healthy db.driver
    → scan_rows (scan_job db.driver) (order_by before (keep is_unfinished db.rows)) ≡ some js
    → list_pending_jobs db ≡ (ok js, tick db)
unfolding list_pending_jobs
list_found js db h e = ground (arith, h db.calls)

pub processing_found :
    (js : List Job) (db : Database)
    → Healthy db.driver
    → scan_rows (scan_job db.driver) (order_by older (keep (λ r. is_processing r.status) db.rows))
      ≡ some js
    → get_processing_jobs db ≡ (ok js, tick db)
unfolding get_processing_jobs
processing_found js db h e = ground (arith, h db.calls)

pub resets : (extra now : ℕ) (r : Row) → Resets extra r (set_reset extra now r)
resets extra now r = ground arith

-- The SQLite backend as a storage that meets the contract; a retry begins at a count of 0.
abbrev pub sqlite_contract : Contract sqlite
sqlite_contract = record {
  scan = scan_job;
  scan_reads = reads;
  scan_again = again;
  reset = set_reset;
  reset_resets = resets;
  save_saves = save-Saves;
  get_keeps = get-Keeps;
  status_keeps = status-Keeps;
  retry_keeps = retry-Keeps;
  requeue_keeps = requeue-Keeps;
  reset_keeps = reset-Keeps;
  list_keeps = list-Keeps;
  get_found = get_found;
  get_missing = get_missing;
  status_found = status_found;
  retry_found = retry_found;
  requeue_found = requeue_found;
  reset_found = reset_found;
  list_found = list_found;
  processing_found = processing_found;
}
