-- ===== src/Storage/Open.antt =====
-- internal/storage: how `NewSQLiteStorage` and `NewPostgresStorage` open a database, ping it and run
-- the migration. The sizes of the connection pool are left out.
use rjq.Common.{
  Bool, true, Option, none, some, List, [], ◌≡◌, refl, inl, inr, if◌then◌else◌, Bool-cases,
}
use rjq.Common.Monad.{Result, ok, err}
use rjq.Errors.{Error, wrap}
use rjq.Storage.Rows.{Row}
use rjq.Storage.Database.{Driver, Database}

-- Third-party code: what a data source name leads to. `table` is the table `jobs`, if there is one;
-- the migration is the driver's first statement.
pub record Source : Type 0 where
  pub opens : Bool
  pub pings : Bool
  pub driver : Driver
  pub table : Option (List Row)

-- `CREATE TABLE IF NOT EXISTS jobs`
abbrev pub created : Option (List Row) → List Row
created none = []
created (some rows) = rows

abbrev pub opened_db : Source → Database
opened_db src = record { driver = src.driver; rows = created src.table; calls = 1; metrics = [] }

unfoldable pub open_storage : Source → Result Error Database
open_storage src =
    if src.opens
    then (if src.pings
        then (if src.driver.answers 0
            then ok (opened_db src)
            else err (wrap "failed to run migrations" Error.driver))
        else err (wrap "failed to ping database" Error.driver))
    else err (wrap "failed to open database" Error.driver)

-- The three calls succeed.
abbrev pub IsReachable : Source → Type 0
IsReachable src = (src.opens ≡ true) × (src.pings ≡ true) × (src.driver.answers 0 ≡ true)

-- A database is opened if and only if its source is reachable, with the rows of its table.
abbrev pub Opens : Source → Result Error Database → Type 0
Opens src (ok db) = IsReachable src × (db ≡ opened_db src)
Opens src (err e) = ¬ IsReachable src

pub open_storage-Opens : (src : Source) → Opens src (open_storage src)
unfolding open_storage
open_storage-Opens src = elim (Bool-cases src.opens) [
  | inr a ↦ simp a (λ r. cc (r.0))
  | inl a ↦ elim (Bool-cases src.pings) [
    | inr b ↦ simp (a, b) (λ r. cc (r.1))
    | inl b ↦ elim (Bool-cases (src.driver.answers 0)) [
      | inr d ↦ simp (a, b, d) (λ r. cc (r.2))
      | inl d ↦ simp (a, b, d) ((refl, refl, refl), refl)
    ]
  ]
]
