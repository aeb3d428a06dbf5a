-- ===== src/Examples/Servers.antt =====
-- The theorems on the whole server, at a table of three jobs and a server that takes the letter.
use rjq.Common.{String, true, false, pos, none, some, [], ◌∷◌, ◌≡◌, refl, get_elem?}
use rjq.Models.{Job, processing, empty, is_pending, is_processing}
use rjq.Config.{Config}
use rjq.Storage.Rows.{Row}
use rjq.Storage.Database.{tick}
use rjq.Storage.Open.{Source, opened_db}
use rjq.Storage.Sqlite.{sqlite}
use rjq.Storage.Sqlite.Updates.{set_status, update_job_status}
use rjq.Storage.Sqlite.Scan.{scan_job}
use rjq.Storage.Contract.{Stored}
use rjq.Storage.Contract.Sqlite.{sqlite_contract}
use rjq.Queue.Delivery
use rjq.Queue.Sorted.{new_sorted_queue}
use rjq.Queue.RateLimited.{new_rate_limited_queue}
use rjq.Worker.{System, Slot, idle, live, begin_job}
use rjq.Email.{Conversation, finishes}
use rjq.Api.{Response, error, get_stats, respond, stats}
use rjq.Api.Routes.{get, route, serve}
use rjq.Api.Routes.Reading.{IsSame, serve_get-IsSame}
use rjq.Api.Routes.Asking.{sqlite_asks}
use rjq.Api.Stats.{rows_that, queued_jobs, get_stats_lem}
use rjq.Server.{panicked, launched, start_server, new_system}
use rjq.Server.Jobs.{process_job, Handles, process_job-Handles}
use rjq.Examples.Fixtures.{job_of, row_a, driver, db-Healthy, db-Ready, system}
use rjq.Examples.Settings.{settings, processor, letter, conversation}

abbrev pub config : Config
config = record settings { rate_limit = record { emails_per_minute = pos 10; burst = pos 5 } }

-- A table with one pending job.
abbrev pub stored_at : String → Source
stored_at dsn = record { opens = true; pings = true; driver = driver; table = some (row_a ∷ []) }

abbrev pub started : System
started = record {
  router = record {
    db = opened_db (stored_at "");
    fifo = record { jobs = []; capacity = 40; closed = false };
    priority = new_sorted_queue;
    rate_limited = record {
      memory = record { jobs = []; capacity = 40; closed = false };
      rate = 10;
      burst = 5;
      tokens = 5;
      stopped = false;
    };
  };
  pool = record { slots = idle ∷ idle ∷ idle ∷ idle ∷ []; count = 4; alive = 0; done = false };
}

pub starts_pool : start_server true (some config) stored_at stored_at ≡ launched config started
unfolding start_server new_system new_rate_limited_queue
starts_pool = refl

-- A rate of 0 passes `LoadConfig`.
panics : start_server true (some settings) stored_at stored_at ≡ panicked
unfolding start_server
panics = refl

abbrev pub nothing_else : Response
nothing_else = respond 404 (error "not found")

-- One row is pending, one in processing, and four jobs stand in the queues.
get_stats_lem_example :
    let (resp, s') = get_stats sqlite system in
    (resp
      ≡ respond 200 (
          stats
            (rows_that is_pending system)
            (rows_that is_processing system)
            (queued_jobs system)))
    × (s' ≡ record system { router = record (system.router) { db = tick (tick system.router.db) } })
get_stats_lem_example = get_stats_lem sqlite sqlite_contract system db-Ready

stats_numbers :
    (rows_that is_pending system ≡ 1)
    × (rows_that is_processing system ≡ 1)
    × (queued_jobs system ≡ 4)
stats_numbers = (refl, refl, refl)

abbrev willing : Conversation
willing = record conversation { server = record { answers = λ n. true; offers_tls = true } }

abbrev busy : Slot
busy = record { current = some (letter, live); preempt = none }

abbrev row_processing : Row
row_processing = set_status processing empty 60 row_a

begun-Stored :
    Stored scan_job "a" row_processing
      (job_of row_processing)
      (begin_job sqlite 0 letter 60 system).router.db
unfolding begin_job Delivery.set_processing update_job_status
begun-Stored = record { healthy = db-Healthy; found = refl; scans = refl }

begun_slot : get_elem? (begin_job sqlite 0 letter 60 system).pool.slots 0 ≡ some busy
unfolding begin_job Delivery.set_processing update_job_status
begun_slot = refl

process_job-Handles_example :
    let (s', said') =
      process_job sqlite processor 0 letter finishes finishes (λ s. s) 60 70 (system, willing) in
    (row : Row) × (i : Job) × Stored scan_job "a" row i s'.router.db
    × Handles processor letter finishes finishes live row_processing row willing said'
process_job-Handles_example =
    process_job-Handles sqlite sqlite_contract processor 0 letter finishes finishes (λ s. s) 60 70
      system willing live busy row_processing (job_of row_processing) begun-Stored begun_slot refl

serve_get-IsSame_example :
    IsSame system (serve sqlite nothing_else (route get ("jobs" ∷ "a" ∷ [])) none "" 50 system).1
serve_get-IsSame_example =
    serve_get-IsSame sqlite sqlite_asks nothing_else ("jobs" ∷ "a" ∷ []) none "" 50 system
