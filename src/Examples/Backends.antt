-- ===== src/Examples/Backends.antt =====
-- The theorems on the table and its two backends, at the table of three jobs.
use rjq.Common.{[], ◌∷◌, refl, arith}
use rjq.Models.{Job, pending}
use rjq.Storage.Sqlite.{sqlite}
use rjq.Storage.Postgres.{postgres}
use rjq.Storage.Contract.Sqlite.{sqlite_contract}
use rjq.Queue.Delivery.{nack, retry}
use rjq.Queue.Delivery.Keeps.{AllSafe, all_safe}
use rjq.Queue.Delivery.Attempts.{Left, Failed, nacks, nack_attempts}
use rjq.Queue.Delivery.Retries.{Gives, retry-sqlite, retry-postgres}
use rjq.Queue.Memory
use rjq.Queue.Sorted.{SortedQueue}
use rjq.Queue.Sorted
use rjq.Queue.Sorted.Order.{IsSorted, insert_locked-IsSorted}
use rjq.Storage.Sqlite.Lists.{count_by_queue_and_status}
use rjq.Storage.RoundTrip.{Encodes, Fresh, RoundTrips, sqlite-RoundTrips}
use rjq.Metrics.{collect}
use rjq.Metrics.Depths.{Depths, collect-Depths}
use rjq.Examples.Fixtures.{
  row_of, driver, db-Healthy, row_b, row_c, job_of, db, backed, b-Stored, c-Stored, c-Stored_pg,
}

abbrev SortedJobs : SortedQueue → Type 0
SortedJobs q = IsSorted q.jobs

pub enqueue-SortedJobs :
    (job : Job) (q : SortedQueue) → SortedJobs q → SortedJobs (Sorted.enqueue job q).1
unfolding Sorted.enqueue
enqueue-SortedJobs job q s = ground (arith, insert_locked-IsSorted job q.jobs s)

all_safe_example : AllSafe SortedJobs sqlite sqlite_contract Sorted.enqueue enqueue-SortedJobs
all_safe_example = all_safe SortedJobs sqlite sqlite_contract Sorted.enqueue enqueue-SortedJobs

nack_attempts_example :
    Left sqlite sqlite_contract Memory.enqueue "b" row_b 1 pending
      (nacks sqlite sqlite_contract Memory.enqueue "b" (50 ∷ []) backed)
    × Failed sqlite sqlite_contract Memory.enqueue "b" row_b 60
        (nack sqlite Memory.enqueue "b" 60
          (nacks sqlite sqlite_contract Memory.enqueue "b" (50 ∷ []) backed)).1
nack_attempts_example =
    nack_attempts sqlite sqlite_contract Memory.enqueue "b" (50 ∷ []) 60 row_b (job_of row_b) backed
      b-Stored refl

retry-sqlite_example : Gives 6 "c" (retry sqlite Memory.enqueue "c" 3 50 backed).1.db
retry-sqlite_example =
    retry-sqlite Memory.enqueue "c" 3 50 row_c (job_of row_c) backed c-Stored refl

retry-postgres_example : Gives 3 "c" (retry postgres Memory.enqueue "c" 3 50 backed).1.db
retry-postgres_example =
    retry-postgres Memory.enqueue "c" 3 50 row_c (job_of row_c) backed c-Stored_pg refl refl

abbrev fresh_job : Job
fresh_job = job_of (row_of "d" 2 pending 0 40)

d-Encodes : Encodes driver fresh_job.payload "{}"
d-Encodes = record { marshals = refl; written = refl; unmarshals = refl }

d-Fresh : Fresh fresh_job db
d-Fresh = record { healthy = db-Healthy; fresh = refl }

sqlite-RoundTrips_example : RoundTrips sqlite fresh_job db
sqlite-RoundTrips_example = sqlite-RoundTrips fresh_job [] "{}" db refl d-Encodes d-Fresh

collect-Depths_example : Depths (collect db) (count_by_queue_and_status db)
collect-Depths_example = collect-Depths db
