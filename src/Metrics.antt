-- ===== src/Metrics.antt =====
-- internal/metrics/queue_depth.go: the collector of the queue depths, which reads the table.
pub mod Depths
use rjq.Common.{ℕ, suc, String, List, [], ◌∷◌, if◌then◌else◌, str_eq, keep}
use rjq.Common.Monad.{Result, ok, err}
use rjq.Models.{is_pending}
use rjq.Errors.{Error}
use rjq.Storage.Rows.{Row}
use rjq.Storage.Database.{Database, query}

-- `SELECT queue_type, COUNT(*) … GROUP BY queue_type`: one row for each queue type that occurs. SQL
-- leaves their order open.
abbrev pub add_to : String → List (String × ℕ) → List (String × ℕ)
add_to q [] = (q, 1) ∷ []
add_to q ((k, n) ∷ groups) =
    let rest = add_to q groups in if str_eq k q then (k, suc n) ∷ groups else (k, n) ∷ rest

unfoldable pub group_by_queue : List Row → List (String × ℕ)
group_by_queue [] = []
group_by_queue (r ∷ rows) = add_to r.queue_type (group_by_queue rows)

-- One gauge for each row of the answer; a query that fails emits none.
abbrev pub emitted : Result Error (List (String × ℕ)) × Database → List (String × ℕ) × Database
emitted (ok groups, db) = (groups, db)
emitted (err _, db) = ([], db)

-- `Collect`, with the gauges that it sends to the channel.
unfoldable pub collect : Database → List (String × ℕ) × Database
unfolding group_by_queue
collect db = emitted (query (λ rows. group_by_queue (keep (λ r. is_pending r.status) rows)) db)
