-- ===== src/Storage/Sqlite.antt =====
-- internal/storage/sqlite.go: `SQLiteStorage` as a `Storage`.
pub mod Scan
pub mod Updates
pub mod Lists
use rjq.Storage.Interface.{Storage}
use Updates
use Lists

abbrev pub sqlite : Storage
sqlite = record {
  save_job = Updates.save_job;
  get_job = Updates.get_job;
  update_job_status = Updates.update_job_status;
  list_pending_jobs = Lists.list_pending_jobs;
  list_recent_jobs = Lists.list_recent_jobs;
  get_processing_jobs = Lists.get_processing_jobs;
  list_all_pending_jobs = Lists.list_all_pending_jobs;
  update_job_retry = Updates.update_job_retry;
  requeue = Updates.requeue;
  list_pending_by_queue = Lists.list_pending_by_queue;
  list_processing_by_queue = Lists.list_processing_by_queue;
  reset_for_retry = Updates.reset_for_retry;
  count_by_queue_and_status = Lists.count_by_queue_and_status;
}
