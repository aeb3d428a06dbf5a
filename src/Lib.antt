-- ===== src/Lib.antt =====
-- RJQ: a job queue that takes jobs over HTTP, keeps them in a database and runs them on a pool of
-- workers, with retries, recovery after a crash, priorities and a rate limit.
--
-- A job of `POST /jobs` is saved (internal/storage), handed to a worker that it preempts or to one
-- of three queues in memory (internal/queue), taken out by a worker (internal/worker), and settled
-- by Ack, Nack or Requeue, which write to the database and may enqueue it again. After a restart
-- Recover fills the queues from the database.
--
-- The files and the code:
--   Models        pkg/models/job.go: `Job`, its statuses, priorities and queue types.
--   Errors        the texts of `fmt.Errorf` and `%w`, and the counters of
--                 internal/metrics/metrics.go that the modelled code increments.
--   Storage       internal/storage. Rows is the table of `migrate` with the statements that the
--                 backends run on it, Database the handle `*sql.DB` with the counters, Interface
--                 the interface `Storage`. Sqlite is sqlite.go and Postgres postgres.go, each
--                 method under its name in snake case (`UpdateJobRetry` is `update_job_retry`).
--                 Contract says what the queues rely on; both backends meet it. Open is how either
--                 opens its database.
--   Queue         internal/queue. Delivery is what memory_queue.go and sorted_que.go do alike
--                 (Ack, Nack, SetProcessing, Requeue, Retry, Recover, sweep), over any storage and
--                 any queue in memory; Memory is memory_queue.go, Sorted sorted_que.go, RateLimited
--                 rate_limited.go and Router router.go. Interface is interface.go, which
--                 these four implement. Memory.Threads and Sorted.Waiters take the calls apart into
--                 the steps between which other goroutines run.
--   Worker        internal/worker/pool.go: the workers' slots, `Preempt`, the choice of the next
--                 job, and `processJob` before and after the call of the processor (`begin_job`,
--                 `finish_job`), between which other goroutines run. Lives is the goroutines of the
--                 workers with their panics, and `supervise`, as a relation of steps.
--   Metrics       internal/metrics/queue_depth.go: `Collect`, with the gauges that it sends.
--   Email         internal/jobs/email/email_worker.go: `Process` and what it says to the server.
--   Config        internal/config/config.go: the settings and the checks of `LoadConfig`.
--   Api           internal/api/handlers.go: a handler from the decoded request to the answer;
--                 Routes is `RegisterRoutes`.
--   Server        cmd/server/main.go: how `main` puts the parts together, starts them and closes
--                 them. Goroutines is the running server with every goroutine, as a relation of
--                 steps: Moves are those of the handlers, the recovery, the sweepers and the
--                 ticker, and each worker goes through `processJob` statement by statement.
--                 A call of a handler is one step of it, and so is what the recovery or a sweeper
--                 does for one job. Jobs is `processJob` with the email processor, and Posting a
--                 job from its `POST` over `processJob` to a `GET`.
--   Examples      concrete tables, queues, workers and letters.
-- Modules such as Storage.Rows.Laws, Storage.Contract.Sqlite, Queue.Sorted.Order and Worker.Preempt
-- hold the proofs.
--
-- How the code is read. A method takes a state to a result and a state (`Method`), and an error
-- keeps the changes made before it. An `int` is a natural number, but for the priority of a
-- request and those of the settings; a time is a number of nanoseconds, and `now` is what a call
-- reads from the clock: once in an operation, also where the code reads it at each row. The driver
-- and encoding/json are parameters, the record `Driver`: it says of each statement whether it
-- succeeds, and a statement that fails changes nothing. The SMTP server is the record `Server`: it
-- says so of each call. The database refuses a second row with a key. SQL leaves the order of
-- equal rows open; here they stay in the order of insertion. Wherever `select` finds two channels
-- ready, or another goroutine may run, the choice is an argument. But for
-- Queue.Memory.Threads, a call of the FIFO queue runs to its end before another begins, so a channel
-- that is full is full when the wait ends; Server.Goroutines lets other goroutines run between the
-- router's look at the tokens and its calls of the other two queues, and while a worker waits for a
-- token, and `Pass.meanwhile` is what they do there to the rate-limited queue. The router's three queues share one database; the system
-- (`Worker.System`) is the router with the pool.
--
-- Loops: those over jobs, slots and rows are by recursion on the list. The loops that wait, for a
-- token or for a job, take the list of what happens in each round; where the list ends the call
-- still waits (`holding`) or its deadline has passed (`nothing`). No other fuel is used.
--
-- Not modelled: closing a database, logging, headers and the dashboard page, the histograms and
-- the gauge of the recovery's duration, the end of `main` where the recovery
-- fails, the signals and the HTTP server of cmd/server/main.go, and the YAML library.
pub mod Common
pub mod Models
pub mod Errors
pub mod Storage
pub mod Queue
pub mod Worker
pub mod Metrics
pub mod Config
pub mod Email
pub mod Api
pub mod Server
pub mod Examples
