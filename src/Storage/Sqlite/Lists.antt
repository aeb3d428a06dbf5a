-- ===== src/Storage/Sqlite/Lists.antt =====
-- internal/storage/sqlite.go: the methods of `SQLiteStorage` that read many rows.
use rjq.Common.{
  ℕ, String, Bool, ◌&&◌, ◌||◌, Option, none, some, List, if◌then◌else◌, keep, take, length, ◌==◌,
  str_eq,
}
use rjq.Common.Monad.{ok, err, Method, ◌>>=◌}
use rjq.Models.{Job, Status, pending, processing, completed, failed, is_pending, is_processing}
use rjq.Errors.{Error, json, wrap, wrapping}
use rjq.Storage.Rows.{Row, before, older, newer, order_by}
use rjq.Storage.Database.{Database, query, scan_rows}
use rjq.Storage.Sqlite.Scan.{scan_job}

-- `status IN ('pending', 'processing')`
abbrev pub is_unfinished : Row → Bool
is_unfinished r = is_pending r.status || is_processing r.status

abbrev pub all_scanned : Option (List Job) → Method Database Error (List Job)
all_scanned none db =
    (err (wrap "failed to scan job row" (wrap "failed to unmarshal payload" json)), db)
all_scanned (some js) db = (ok js, db)

-- `queryJobs`, over a query that selects rows.
unfoldable pub query_jobs : (List Row → List Row) → Method Database Error (List Job)
query_jobs select = wrapping "failed to query jobs" (query select) >>= λ rows db.
    all_scanned (scan_rows (scan_job db.driver) rows) db

unfoldable pub list_pending_jobs : Method Database Error (List Job)
unfolding query_jobs
list_pending_jobs = query_jobs (λ rows. order_by before (keep is_unfinished rows))

unfoldable pub list_recent_jobs : ℕ → Method Database Error (List Job)
unfolding query_jobs
list_recent_jobs limit = query_jobs (λ rows. take limit (order_by newer rows))

unfoldable pub get_processing_jobs : Method Database Error (List Job)
unfolding query_jobs
get_processing_jobs = query_jobs (λ rows. order_by older (keep (λ r. is_processing r.status) rows))

unfoldable pub list_all_pending_jobs : Method Database Error (List Job)
unfolding query_jobs
list_all_pending_jobs = query_jobs (λ rows. order_by before (keep (λ r. is_pending r.status) rows))

unfoldable pub list_pending_by_queue : String → Method Database Error (List Job)
unfolding query_jobs
list_pending_by_queue q =
    query_jobs
      (λ rows. order_by before (keep (λ r. is_pending r.status && str_eq r.queue_type q) rows))

unfoldable pub list_processing_by_queue : String → Method Database Error (List Job)
unfolding query_jobs
list_processing_by_queue q =
    query_jobs
      (λ rows. order_by older (keep (λ r. is_processing r.status && str_eq r.queue_type q) rows))

abbrev pub same_status : Status → Status → Bool
same_status pending s = is_pending s
same_status processing s = is_processing s
same_status completed s = elim s [ completed ↦ Bool.true | _ ↦ Bool.false ]
same_status failed s = elim s [ failed ↦ Bool.true | _ ↦ Bool.false ]

-- `GROUP BY` makes a group only of rows that there are, so a count of 0 is a missing key.
abbrev pub group_count : ℕ → Option ℕ
group_count n = if n == 0 then none else some n

abbrev pub in_group : String → Status → Row → Bool
in_group q s r = str_eq r.queue_type q && same_status s r.status

-- The map of maps, as a function of its two keys.
unfoldable pub count_by_queue_and_status : Method Database Error (String → Status → Option ℕ)
count_by_queue_and_status =
    wrapping "failed to count jobs"
      (query (λ rows q s. group_count (length (keep (in_group q s) rows))))
