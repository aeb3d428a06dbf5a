-- ===== src/Queue/Delivery/Retries.antt =====
-- How many attempts `Retry` gives a job that has failed for good, on each backend.
use rjq.Common.{ℕ, ◌+◌, ◌-◌, String, some, ◌≡◌, ap, ◌∙◌, arith}
use rjq.Common.Monad.{Method}
use rjq.Models.{Job, pending, failed}
use rjq.Errors.{Error}
use rjq.Storage.Rows.{Row, find}
use rjq.Storage.Rows.Laws.{map_row, find-update_self}
use rjq.Storage.Database.{Database}
use rjq.Storage.Interface.{Storage}
use rjq.Storage.Sqlite.{sqlite}
use rjq.Storage.Postgres.{postgres}
use rjq.Storage.Sqlite.Updates.{if_failed}
use rjq.Storage.Contract.{Contract, Stored}
use rjq.Storage.Contract.Sqlite.{sqlite_contract}
use rjq.Storage.Contract.Postgres.{postgres_contract}
use rjq.Queue.Delivery.{Backed, retry}
use rjq.Queue.Delivery.Steps.{retry_found, reset-KeepsId}

-- The `Nack`s that a job can take until it fails for good.
abbrev pub attempts_left : Row → ℕ
attempts_left r = r.max_retries - r.retry_count

-- The row that a retry leaves is pending and has so many attempts left.
abbrev pub Gives : ℕ → String → Database → Type 0
Gives n id db =
    (row : Row) × (find id db.rows ≡ some row) × (row.status ≡ pending) × (attempts_left row ≡ n)

module _ {Q : Type 0} (enqueue : Job → Method Q Error (Unit {0})) where
  module _ (store : Storage) (c : Contract store) where
    retry_row :
        (id : String) (extra now : ℕ) (r : Row) (j : Job) (s : Backed Q)
        → Stored c.scan id r j s.db
        → r.status ≡ failed
        → find id (retry store enqueue id extra now s).1.db.rows
          ≡ some (if_failed (c.reset extra now) r)
    retry_row id extra now r j s h e =
        let f = if_failed (c.reset extra now) in
        let found = (retry_found store c enqueue id extra now r j s h e).1 in
        rw found.3 (
          find-update_self id f s.db.rows (reset-KeepsId store c enqueue extra now)
          ∙ ap (map_row f) h.found)

  -- On SQLite `Retry` leaves a failed job pending, with its whole old limit and the extra attempts.
  pub retry-sqlite :
      (id : String) (extra now : ℕ) (r : Row) (j : Job) (s : Backed Q)
      → Stored sqlite_contract.scan id r j s.db
      → r.status ≡ failed
      → Gives (r.max_retries + extra) id (retry sqlite enqueue id extra now s).1.db
  retry-sqlite id extra now r j s h e =
      (_, retry_row sqlite sqlite_contract id extra now r j s h e, ground arith, ground arith)

  -- On Postgres `Retry` leaves it pending with the extra attempts alone, where it had used up its
  -- limit.
  pub retry-postgres :
      (id : String) (extra now : ℕ) (r : Row) (j : Job) (s : Backed Q)
      → Stored postgres_contract.scan id r j s.db
      → r.status ≡ failed
      → r.retry_count ≡ r.max_retries
      → Gives extra id (retry postgres enqueue id extra now s).1.db
  retry-postgres id extra now r j s h e u =
      (_, retry_row postgres postgres_contract id extra now r j s h e, ground arith, ground arith)
