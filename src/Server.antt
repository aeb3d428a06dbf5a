-- ===== src/Server.antt =====
-- cmd/server/main.go: how the parts are put together, started and shut down. Counters that are
-- registered with the value 0 count nothing, so they are left out.
pub mod Invariant
pub mod Kept
pub mod Handlers
pub mod Moves
pub mod Ending
pub mod Build
pub mod Start
pub mod Goroutines
pub mod Jobs
pub mod Posting
use rjq.Common.{
  String, ℤ, pos, negsuc, ℕ, ◌*◌, Bool, true, false, Option, none, some, if◌then◌else◌, str_eq,
}
use rjq.Common.Monad.{Result, ok, err}
use rjq.Errors.{Error, wrap}
use rjq.Storage.Database.{Database}
use rjq.Storage.Open.{Source, open_storage}
use rjq.Storage.Interface.{Storage}
use rjq.Storage.Sqlite.{sqlite}
use rjq.Storage.Postgres.{postgres}
use rjq.Queue.Memory.{new_memory_queue}
use rjq.Queue.Sorted.{new_sorted_queue}
use rjq.Queue.RateLimited.{RateLimitedQueue, new_rate_limited_queue}
use rjq.Queue.Router.{Router}
use rjq.Queue.Router
use rjq.Worker.{System, start}
use rjq.Email.{EmailProcessor}
use rjq.Config.{Config, load_config}

-- `switch cfg.Database.Backend`, with what the data source names of each backend lead to.
unfoldable pub backend : Config → Storage
backend cfg = if str_eq cfg.database.backend "postgres" then postgres else sqlite

abbrev pub source : (postgres_at sqlite_at : String → Source) → Config → Source
source postgres_at sqlite_at cfg =
    if str_eq cfg.database.backend "postgres"
    then postgres_at cfg.database.postgres_dsn
    else sqlite_at cfg.database.sqlite_path

-- `switch cfg.Email.Mode`, and the processor.
unfoldable pub new_processor : Config → EmailProcessor
new_processor cfg =
    if str_eq cfg.email.mode "production"
    then record {
      smtp_host = cfg.email.smtp_host;
      smtp_port = cfg.email.smtp_port;
      smtp_user = cfg.email.smtp_user;
      smtp_pass = cfg.email.smtp_pass;
      use_auth = true;
    }
    else record {
      smtp_host = cfg.email.test_host;
      smtp_port = cfg.email.test_port;
      smtp_user = cfg.email.test_user;
      smtp_pass = cfg.email.test_pass;
      use_auth = false;
    }

-- A channel of a negative size and a ticker of a negative interval panic. A bucket of a negative
-- size has a token as little as one of the size 0.
abbrev pub size_of : ℤ → Option ℕ
size_of (pos n) = some (n * 10)
size_of (negsuc n) = none

abbrev pub rate_of : ℤ → Option ℕ
rate_of (pos n) = some n
rate_of (negsuc n) = none

abbrev pub burst_of : ℤ → ℕ
burst_of (pos n) = n
burst_of (negsuc n) = 0

abbrev pub count_of : ℤ → ℕ
count_of (pos n) = n
count_of (negsuc n) = 0

abbrev pub rate_limited : Option ℕ → Option ℕ → ℕ → Option RateLimitedQueue
rate_limited none rate burst = none
rate_limited (some size) none burst = none
rate_limited (some size) (some rate) burst = new_rate_limited_queue size rate burst

abbrev pub system_of : Config → Database → Option ℕ → Option RateLimitedQueue → Option System
system_of cfg db none q = none
system_of cfg db (some size) none = none
system_of cfg db (some size) (some q) = some (record {
  router = record {
    db = db;
    fifo = new_memory_queue size;
    priority = new_sorted_queue;
    rate_limited = q;
  };
  pool = start (count_of cfg.queue.workers);
})

-- The queues, the router and the started pool, over an opened database; `none` is a panic.
unfoldable pub new_system : Config → Database → Option System
unfolding new_rate_limited_queue
new_system cfg db =
    let size = size_of cfg.queue.workers in
    system_of cfg db size
      (rate_limited size (rate_of cfg.rate_limit.emails_per_minute) (burst_of cfg.rate_limit.burst))

-- What `main` comes to up to `pool.Start()`: `log.Fatal`, a panic, or a system whose workers run. The
-- recovery comes after it, beside the workers.
pub data Started : Type 0 where
  fatal : Error → Started
  panicked : Started
  launched : Config → System → Started

abbrev pub launching : Config → Option System → Started
launching cfg none = panicked
launching cfg (some s) = launched cfg s

abbrev pub opened : Config → Result Error Database → Started
opened cfg (err e) = fatal (wrap "Failed to initialize storage" e)
opened cfg (ok db) = launching cfg (new_system cfg db)

abbrev pub loaded : (postgres_at sqlite_at : String → Source) → Result Error Config → Started
loaded postgres_at sqlite_at (err e) = fatal (wrap "Failed to load config" e)
loaded postgres_at sqlite_at (ok cfg) = opened cfg (open_storage (source postgres_at sqlite_at cfg))

-- `main` up to `pool.Start()`.
unfoldable pub start_server :
    Bool → Option Config → (postgres_at sqlite_at : String → Source) → Started
unfolding load_config open_storage new_system
start_server read decoded postgres_at sqlite_at =
    loaded postgres_at sqlite_at (load_config read decoded)

-- The shutdown after a signal: `router.Close()` and `pool.Stop()`; `none` is a panic.
abbrev pub stopped : System → Option Router → Option System
stopped s none = none
stopped s (some r) = some (record s { router = r; pool = record (s.pool) { done = true } })

unfoldable pub shut_down : System → Option System
unfolding Router.close
shut_down s = stopped s (Router.close s.router)
