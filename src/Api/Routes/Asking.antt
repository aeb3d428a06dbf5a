-- ===== src/Api/Routes/Asking.antt =====
-- Each backend makes one call of the driver where it reads.
use rjq.Common.{
  suc, String, Bool, ◌&&◌, Option, none, some, List, ◌≡◌, refl, inl, inr, Bool-cases, arith, keep,
  take, str_eq,
}
use rjq.Models.{Job, is_pending, is_processing}
use rjq.Storage.Rows.{Row, find, before, older, newer, order_by}
use rjq.Storage.Database.{Database, tick, scan_rows}
use rjq.Storage.Sqlite
use rjq.Storage.Sqlite.{sqlite}
use rjq.Storage.Sqlite.Scan.{scan_job}
use rjq.Storage.Sqlite.Lists.{is_unfinished, all_scanned}
use rjq.Storage.Postgres
use rjq.Storage.Postgres.{postgres}
use rjq.Storage.Postgres.Updates.{pg_scan_job}
use rjq.Api.Routes.Reading.{AsksOnce}

all_scanned-same : (o : Option (List Job)) (db : Database) → (all_scanned o db).1 ≡ db
all_scanned-same none db = refl
all_scanned-same (some js) db = refl

module _ (db : Database) where
  query_jobs-asks : (select : List Row → List Row) → (Sqlite.Lists.query_jobs select db).1 ≡ tick db
  unfolding Sqlite.Lists.query_jobs
  query_jobs-asks select = elim (Bool-cases (db.driver.answers db.calls)) [
    | inl e ↦ simp e (
        all_scanned-same (scan_rows (scan_job db.driver) (select db.rows))
          (record db { calls = suc db.calls }))
    | inr e ↦ simp e refl
  ]

  pg_query_jobs-asks :
      (select : List Row → List Row) → (Postgres.Lists.pg_query_jobs select db).1 ≡ tick db
  unfolding Postgres.Lists.pg_query_jobs
  pg_query_jobs-asks select = elim (Bool-cases (db.driver.answers db.calls)) [
    | inl e ↦ simp e (
        all_scanned-same (scan_rows (pg_scan_job db.driver) (select db.rows))
          (record db { calls = suc db.calls }))
    | inr e ↦ simp e refl
  ]

  kept-asks :
      (lt : Row → Row → Bool) (p : Row → Bool)
      → (Sqlite.Lists.query_jobs (λ rows. order_by lt (keep p rows)) db).1 ≡ tick db
  kept-asks lt p = query_jobs-asks (λ rows. order_by lt (keep p rows))

  pg_kept-asks :
      (lt : Row → Row → Bool) (p : Row → Bool)
      → (Postgres.Lists.pg_query_jobs (λ rows. order_by lt (keep p rows)) db).1 ≡ tick db
  pg_kept-asks lt p = pg_query_jobs-asks (λ rows. order_by lt (keep p rows))

  scan_found-same : (o : Option Row) → (Sqlite.Updates.scan_found o db).1 ≡ db
  scan_found-same none = refl
  scan_found-same (some r) = ground arith

  pg_scan_found-same : (o : Option Row) → (Postgres.Updates.scan_found o db).1 ≡ db
  pg_scan_found-same none = refl
  pg_scan_found-same (some r) = ground arith

get_job-asks : (id : String) (db : Database) → (Sqlite.Updates.get_job id db).1 ≡ tick db
unfolding Sqlite.Updates.get_job
get_job-asks id db = elim (Bool-cases (db.driver.answers db.calls)) [
  | inl e ↦ simp e (scan_found-same (tick db) (find id db.rows))
  | inr e ↦ simp e refl
]

pg_get_job-asks : (id : String) (db : Database) → (Postgres.Updates.get_job id db).1 ≡ tick db
unfolding Postgres.Updates.get_job
pg_get_job-asks id db = elim (Bool-cases (db.driver.answers db.calls)) [
  | inl e ↦ simp e (pg_scan_found-same (tick db) (find id db.rows))
  | inr e ↦ simp e refl
]

pub sqlite_asks : AsksOnce sqlite
unfolding Sqlite.Lists.list_pending_jobs Sqlite.Lists.list_recent_jobs
    Sqlite.Lists.get_processing_jobs Sqlite.Lists.list_all_pending_jobs
    Sqlite.Lists.list_pending_by_queue Sqlite.Lists.count_by_queue_and_status
sqlite_asks = record {
  job = get_job-asks;
  pending_jobs = λ db. kept-asks db before is_unfinished;
  recent_jobs = λ limit db. query_jobs-asks db (λ rows. take limit (order_by newer rows));
  processing_jobs = λ db. kept-asks db older (λ r. is_processing r.status);
  all_pending_jobs = λ db. kept-asks db before (λ r. is_pending r.status);
  pending_by_queue =
      λ q db. kept-asks db before (λ r. is_pending r.status && str_eq r.queue_type q);
  group_counts = λ db. counts db;
}
  where
    counts : (db : Database) → (Sqlite.Lists.count_by_queue_and_status db).1 ≡ tick db
    counts db = ground arith

pub postgres_asks : AsksOnce postgres
unfolding Postgres.Lists.list_pending_jobs Postgres.Lists.list_recent_jobs
    Postgres.Lists.get_processing_jobs Postgres.Lists.list_all_pending_jobs
    Postgres.Lists.list_pending_by_queue Postgres.Lists.count_by_queue_and_status
postgres_asks = record {
  job = pg_get_job-asks;
  pending_jobs = λ db. pg_kept-asks db before is_unfinished;
  recent_jobs = λ limit db. pg_query_jobs-asks db (λ rows. take limit (order_by newer rows));
  processing_jobs = λ db. pg_kept-asks db older (λ r. is_processing r.status);
  all_pending_jobs = λ db. pg_kept-asks db before (λ r. is_pending r.status);
  pending_by_queue =
      λ q db. pg_kept-asks db before (λ r. is_pending r.status && str_eq r.queue_type q);
  group_counts = λ db. counts db;
}
  where
    counts : (db : Database) → (Postgres.Lists.count_by_queue_and_status db).1 ≡ tick db
    counts db = ground arith
