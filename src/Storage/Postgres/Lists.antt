-- ===== src/Storage/Postgres/Lists.antt =====
-- internal/storage/postgres.go: the methods of `PostgresStorage` that read many rows.
use rjq.Common.{ℕ, String, ◌&&◌, Option, List, keep, take, length, str_eq}
use rjq.Common.Monad.{Method, ◌>>=◌}
use rjq.Models.{Job, Status, is_pending, is_processing}
use rjq.Errors.{Error, wrapping}
use rjq.Storage.Rows.{Row, before, older, newer, order_by}
use rjq.Storage.Database.{Database, query, scan_rows}
use rjq.Storage.Sqlite.Lists.{is_unfinished, all_scanned, group_count, in_group}
use rjq.Storage.Postgres.Updates.{pg_scan_job}

-- `pgQueryJobs`, over a query that selects rows.
unfoldable pub pg_query_jobs : (List Row → List Row) → Method Database Error (List Job)
pg_query_jobs select = wrapping "failed to query jobs" (query select) >>= λ rows db.
    all_scanned (scan_rows (pg_scan_job db.driver) rows) db

unfoldable pub list_pending_jobs : Method Database Error (List Job)
unfolding pg_query_jobs
list_pending_jobs = pg_query_jobs (λ rows. order_by before (keep is_unfinished rows))

unfoldable pub list_recent_jobs : ℕ → Method Database Error (List Job)
unfolding pg_query_jobs
list_recent_jobs limit = pg_query_jobs (λ rows. take limit (order_by newer rows))

unfoldable pub get_processing_jobs : Method Database Error (List Job)
unfolding pg_query_jobs
get_processing_jobs =
    pg_query_jobs (λ rows. order_by older (keep (λ r. is_processing r.status) rows))

unfoldable pub list_all_pending_jobs : Method Database Error (List Job)
unfolding pg_query_jobs
list_all_pending_jobs =
    pg_query_jobs (λ rows. order_by before (keep (λ r. is_pending r.status) rows))

unfoldable pub list_pending_by_queue : String → Method Database Error (List Job)
unfolding pg_query_jobs
list_pending_by_queue q =
    pg_query_jobs
      (λ rows. order_by before (keep (λ r. is_pending r.status && str_eq r.queue_type q) rows))

unfoldable pub list_processing_by_queue : String → Method Database Error (List Job)
unfolding pg_query_jobs
list_processing_by_queue q =
    pg_query_jobs
      (λ rows. order_by older (keep (λ r. is_processing r.status && str_eq r.queue_type q) rows))

-- The map of maps, as a function of its two keys.
unfoldable pub count_by_queue_and_status : Method Database Error (String → Status → Option ℕ)
count_by_queue_and_status =
    wrapping "failed to count jobs"
      (query (λ rows q s. group_count (length (keep (in_group q s) rows))))
