-- ===== src/Api/Stats.antt =====
-- `GET /stats`: the three numbers of the answer.
use rjq.Common.{ap, ℕ, ◌+◌, Bool, true, some, List, ◌≡◌, refl, sym, ap₂, ◌∙◌, length, keep}
use rjq.Models.{Job, Status, is_pending, is_processing}
use rjq.Storage.Rows.{Row, before, older, order_by}
use rjq.Storage.Rows.Counting.{count, count-order_by, count-keep, count-scan_rows, count-true}
use rjq.Storage.Rows.Listing.{All-map, All-keep, All-order_by, scan_rows-All}
use rjq.Storage.Database.{Database, tick, scan_rows}
use rjq.Storage.Sqlite.Lists.{is_unfinished}
use rjq.Storage.Interface.{Storage}
use rjq.Storage.Contract.{Contract}
use rjq.Queue.Delivery.Reads.{Ready}
use rjq.Queue.Router
use rjq.Worker.{System}
use rjq.Api.{respond, stats, get_stats}

-- How many rows of the table have a status that passes a test.
abbrev pub rows_that : (Status → Bool) → System → ℕ
rows_that p s = count (λ r. p r.status) s.router.db.rows

abbrev pub queued_jobs : System → ℕ
queued_jobs s =
    length s.router.fifo.jobs
    + length s.router.priority.jobs
    + length s.router.rate_limited.memory.jobs

module _ (store : Storage) (c : Contract store) where
  -- The rows that a query selects scan to jobs, as many of each status.
  scanned_jobs :
      (lt : Row → Row → Bool) (u : Row → Bool) (db : Database)
      → Ready c.scan db
      → (jobs : List Job) × (scan_rows (c.scan db.driver) (order_by lt (keep u db.rows))
          ≡ some jobs)
        × ((p : Status → Bool)
            → count (λ j. p j.status) jobs ≡ count (λ r. p r.status) (keep u db.rows))
  scanned_jobs lt u db h =
      let rows = order_by lt (keep u db.rows) in
      let scan = c.scan db.driver in
      let both =
        All-map (λ r. (j : Job) × (scan r ≡ some j))
          (λ r. Unit {0} × ((j : Job) × (scan r ≡ some j))) (λ r k. (tt, k)) db.rows h.scans in
      let (jobs, e, _) =
        scan_rows-All scan (λ r. Unit {0}) (λ j. Unit {0}) (λ r j k t. tt) rows
          (All-order_by lt _ (keep u db.rows) (All-keep _ u db.rows both)) in
      (
        jobs,
        e,
        λ p.
            count-scan_rows (λ r. p r.status) (λ j. p j.status) scan rows jobs
              (λ r j k. ap p (c.scan_reads db.driver r j k).status) e
            ∙ count-order_by (λ r. p r.status) lt (keep u db.rows),
      )

  -- `GET /stats`, on a driver that answers and rows that all scan: a 200 with the number of rows that
  -- are pending, the number of those in processing, and the number of jobs in the three queues; no
  -- queue, worker or row changes.
  pub get_stats_lem :
      (s : System)
      → Ready c.scan s.router.db
      → let (resp, s') = get_stats store s in
        (resp
          ≡ respond 200
              (stats (rows_that is_pending s) (rows_that is_processing s) (queued_jobs s)))
        × (s' ≡ record s { router = record (s.router) { db = tick (tick s.router.db) } })
  unfolding get_stats Router.pending_count
  get_stats_lem s h =
      let db = s.router.db in
      let unfinished : Row → Bool = λ r. is_unfinished r in
      let running : Row → Bool = λ r. is_processing r.status in
      let (js, e, n) = scanned_jobs before unfinished db h in
      let (ks, f, m) = scanned_jobs older running db h in
      let pendings =
        n is_pending
        ∙ count-keep (λ r. is_pending r.status) unfinished db.rows (λ r k. rw k refl) in
      let processings : length ks ≡ rows_that is_processing s =
        sym (count-true ks) ∙ m (λ st. true) ∙ count-true (keep running db.rows) in
      simp (c.list_found js db h.healthy e, c.processing_found ks (tick db) h.healthy f)
        (ap₂ (λ a b. respond 200 (stats a b (queued_jobs s))) pendings processings, refl)
