-- ===== src/Storage/Contract/Agreement.antt =====
-- Where the two backends do the same.
use rjq.Common.{ℕ, String, ◌≡◌}
use rjq.Models.{Status, Message}
use rjq.Storage.Database.{Database}
use rjq.Storage.Sqlite.{sqlite}
use rjq.Storage.Postgres.{postgres}

-- The updates of one job return the same and leave the same database, counters included.
pub record Agrees (id : String) (db : Database) : Type 0 where
  pub status :
      (st : Status) (m : Message) (now : ℕ)
      → sqlite.update_job_status id st m now db ≡ postgres.update_job_status id st m now db
  pub retry :
      (st : Status) (n : ℕ) (m : Message) (now : ℕ)
      → sqlite.update_job_retry id st n m now db ≡ postgres.update_job_retry id st n m now db
  pub requeue : (now : ℕ) → sqlite.requeue id now db ≡ postgres.requeue id now db
