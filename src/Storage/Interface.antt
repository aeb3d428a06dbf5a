-- ===== src/Storage/Interface.antt =====
-- internal/storage/interface.go: the methods that the queues and the API call, and what they may
-- rely on whichever backend stands behind them. Time is an argument, `now`, of the methods that
-- read the clock.
use rjq.Common.{ℕ, String, Option, List}
use rjq.Common.Monad.{Method}
use rjq.Models.{Job, Status, Message}
use rjq.Errors.{Error}
use rjq.Storage.Database.{Database}

pub record Storage : Type 0 where
  pub save_job : Job → Method Database Error (Unit {0})
  pub get_job : String → Method Database Error (Option Job)
  pub update_job_status : String → Status → Message → ℕ → Method Database Error (Unit {0})
  pub list_pending_jobs : Method Database Error (List Job)
  pub list_recent_jobs : ℕ → Method Database Error (List Job)
  pub get_processing_jobs : Method Database Error (List Job)
  pub list_all_pending_jobs : Method Database Error (List Job)
  pub update_job_retry : String → Status → ℕ → Message → ℕ → Method Database Error (Unit {0})
  pub requeue : String → ℕ → Method Database Error (Unit {0})
  pub list_pending_by_queue : String → Method Database Error (List Job)
  pub list_processing_by_queue : String → Method Database Error (List Job)
  pub reset_for_retry : String → ℕ → ℕ → Method Database Error (Unit {0})
  pub count_by_queue_and_status : Method Database Error (String → Status → Option ℕ)
