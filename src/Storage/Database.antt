-- ===== src/Storage/Database.antt =====
-- The database handle that a backend holds, with what stands behind it: the driver, the table and
-- the counters of the process, which the storage methods increment.
use rjq.Common.{ℕ, suc, String, Bool, true, Option, none, some, List, [], ◌∷◌, if◌then◌else◌, ◌≡◌}
use rjq.Common.Monad.{ok, err, Method}
use rjq.Models.{Payload, Job}
use rjq.Errors.{Error, Metric}
use rjq.Storage.Rows.{Row}

-- Third-party code. `answers n` says whether the n-th statement succeeds; a statement that fails
-- changes nothing. `marshal` and `unmarshal` are those of encoding/json.
pub record Driver : Type 0 where
  pub answers : ℕ → Bool
  pub marshal : Payload → Option String
  pub unmarshal : String → Option Payload

pub record Database : Type 0 where
  pub driver : Driver
  pub rows : List Row
  pub calls : ℕ
  pub metrics : List Metric

-- Every statement succeeds.
abbrev pub Healthy : Driver → Type 0
Healthy d = (n : ℕ) → d.answers n ≡ true

abbrev pub tick : Database → Database
tick db = record db { calls = suc db.calls }

-- A statement that changes the table by `f`: `s.db.Exec`.
abbrev pub exec : (List Row → List Row) → Method Database Error (Unit {0})
exec f db =
    if db.driver.answers db.calls
    then (ok tt, record db { rows = f db.rows; calls = suc db.calls })
    else (err Error.driver, tick db)

-- A statement that reads the table: `s.db.Query`, `s.db.QueryRow`.
abbrev pub query : {A : Type 0} → (List Row → A) → Method Database Error A
query f db =
    if db.driver.answers db.calls then (ok (f db.rows), tick db) else (err Error.driver, tick db)

abbrev pub count_metric : Metric → Method Database Error (Unit {0})
count_metric m db = (ok tt, record db { metrics = m ∷ db.metrics })

-- The loop of `queryJobs` over a scan function; the first row that does not scan ends it.
abbrev pub scanned : Option Job → Option (List Job) → Option (List Job)
scanned none rest = none
scanned (some j) none = none
scanned (some j) (some js) = some (j ∷ js)

abbrev pub scan_rows : (Row → Option Job) → List Row → Option (List Job)
scan_rows scan [] = some []
scan_rows scan (r ∷ rs) = scanned (scan r) (scan_rows scan rs)
