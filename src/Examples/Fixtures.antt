-- ===== src/Examples/Fixtures.antt =====
-- A driver that always answers, a table of three jobs, and queues over it.
use rjq.Common.{ℕ, String, true, false, none, some, List, [], ◌∷◌, refl}
use rjq.Models.{Job, Status, pending, processing, failed}
use rjq.Storage.Rows.{Row}
use rjq.Storage.Database.{Driver, Database, Healthy}
use rjq.Storage.Sqlite.Scan.{scan_job, to_job}
use rjq.Storage.Postgres.Updates.{pg_scan_job}
use rjq.Storage.Contract.{Stored}
use rjq.Queue.Delivery.{Backed}
use rjq.Queue.Delivery.Reads.{Ready}
use rjq.Queue.Memory.{MemoryQueue}
use rjq.Queue.Sorted.{SortedQueue}
use rjq.Queue.RateLimited.{RateLimitedQueue}
use rjq.Queue.Router.{Router}
use rjq.Worker.{live, Slot, idle, System}

abbrev pub row_of : String → ℕ → Status → ℕ → ℕ → Row
row_of id priority status retry_count time = record {
  id = id;
  job_type = "email";
  payload = "{}";
  queue_type = "fifo";
  priority = priority;
  status = status;
  retry_count = retry_count;
  max_retries = 3;
  created_at = time;
  updated_at = time;
  processed_at = none;
  error_message = none;
}

abbrev pub job_of : Row → Job
job_of r = to_job r (some [])

-- Every text decodes to the empty object.
abbrev pub driver : Driver
driver = record { answers = λ n. true; marshal = λ p. some "{}"; unmarshal = λ t. some (some []) }

abbrev pub row_a : Row
row_a = row_of "a" 1 pending 0 10

abbrev pub row_b : Row
row_b = row_of "b" 2 processing 1 20

abbrev pub row_c : Row
row_c = row_of "c" 1 failed 3 30

abbrev pub db : Database
db = record { driver = driver; rows = row_a ∷ row_b ∷ row_c ∷ []; calls = 0; metrics = [] }

abbrev pub fifo : MemoryQueue
fifo = record { jobs = []; capacity = 4; closed = false }

abbrev pub priority_queue : SortedQueue
priority_queue = record { jobs = job_of row_b ∷ job_of row_a ∷ []; signal = false; closed = false }

abbrev pub bucket : RateLimitedQueue
bucket = record {
  memory = record { jobs = job_of row_a ∷ job_of row_b ∷ []; capacity = 4; closed = false };
  rate = 10;
  burst = 2;
  tokens = 1;
  stopped = false;
}

abbrev pub router : Router
router = record { db = db; fifo = fifo; priority = priority_queue; rate_limited = bucket }

-- The first worker is idle, the second one runs the job `a`.
abbrev pub slots : List Slot
slots = idle ∷ record { current = some (job_of row_a, live); preempt = none } ∷ []

abbrev pub system : System
system = record {
  router = router;
  pool = record { slots = slots; count = 2; alive = 2; done = false };
}

abbrev pub backed : Backed MemoryQueue
backed = record { db = db; queue = fifo }

pub db-Healthy : Healthy db.driver
db-Healthy n = refl

pub db-Ready : Ready scan_job db
db-Ready = record {
  healthy = db-Healthy;
  scans = ((job_of row_a, refl), ((job_of row_b, refl), ((job_of row_c, refl), tt)));
}

pub a-Stored : Stored scan_job "a" row_a (job_of row_a) db
a-Stored = record { healthy = db-Healthy; found = refl; scans = refl }

pub b-Stored : Stored scan_job "b" row_b (job_of row_b) db
b-Stored = record { healthy = db-Healthy; found = refl; scans = refl }

pub c-Stored : Stored scan_job "c" row_c (job_of row_c) db
c-Stored = record { healthy = db-Healthy; found = refl; scans = refl }

pub c-Stored_pg : Stored pg_scan_job "c" row_c (job_of row_c) db
c-Stored_pg = record { healthy = db-Healthy; found = refl; scans = refl }
