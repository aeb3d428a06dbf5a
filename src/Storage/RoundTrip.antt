-- ===== src/Storage/RoundTrip.antt =====
-- A job that was saved is read back as it was, on each backend.
use rjq.Common.{
  suc, String, false, Option, none, some, List, [], ◌∷◌, ◌++◌, ◌≡◌, refl, ap, ◌∙◌, str_eq, eq_iff,
  arith,
}
use rjq.Common.Monad.{Result, ok}
use rjq.Models.{Value, Payload, Job, empty}
use rjq.Errors.{Error}
use rjq.Storage.Rows.{Row, find}
use rjq.Storage.Rows.Laws.{find-append-none}
use rjq.Storage.Database.{Driver, Database, Healthy}
use rjq.Storage.Interface.{Storage}
use rjq.Storage.Sqlite.{sqlite}
use rjq.Storage.Sqlite.Scan.{new_row, scan_job}
use rjq.Storage.Sqlite
use rjq.Storage.Contract.{Contract, Stored}
use rjq.Storage.Contract.Sqlite.{sqlite_contract}
use rjq.Storage.Postgres

-- What encoding/json promises of a value that it can encode: a text, which is not empty and decodes
-- to the value again.
pub record Encodes (d : Driver) (p : Payload) (text : String) : Type 0 where
  pub marshals : d.marshal p ≡ some text
  pub written : str_eq text "" ≡ false
  pub unmarshals : d.unmarshal text ≡ some p

-- A driver that answers, and a key that is not in the table.
pub record Fresh (job : Job) (db : Database) : Type 0 where
  pub healthy : Healthy db.driver
  pub fresh : find job.id db.rows ≡ none

-- The two columns that an INSERT leaves NULL.
abbrev pub as_saved : Job → Job
as_saved job = record job { processed_at = none; error_message = empty }

-- The call succeeds, the job is read back as it was saved, and every other as before.
pub record RoundTrips (s : Storage) (job : Job) (db : Database) : Type 0 where
  pub saves : (s.save_job job db).0 ≡ ok tt
  pub reads : (s.get_job job.id (s.save_job job db).1).0 ≡ ok (some (as_saved job))
  pub others :
      (id : String)
      → str_eq id job.id ≡ false
      → find id (s.save_job job db).1.rows ≡ find id db.rows

abbrev pub inserted : Job → String → Database → Database
inserted job text db = record db { rows = db.rows ++ (new_row job text ∷ []); calls = suc db.calls }

pub find-inserted :
    (job : Job) (text : String) (rows : List Row)
    → find job.id rows ≡ none
    → find job.id (rows ++ (new_row job text ∷ [])) ≡ some (new_row job text)
find-inserted job text rows e =
    find-append-none job.id rows (new_row job text) e ∙ (rw ((eq_iff job.id job.id).1 refl) refl)

find-others :
    (id : String) (job : Job) (text : String) (rows : List Row)
    → str_eq id job.id ≡ false
    → find id (rows ++ (new_row job text ∷ [])) ≡ find id rows
find-others id job text [] e = rw e refl
find-others id job text (r ∷ rows) e = ground (arith, find-others id job text rows)

module _ (store : Storage) (c : Contract store) where
  -- A row that was inserted, and scans to the job, is what `GetJob` finds.
  inserted-RoundTrips :
      (job : Job) (text : String) (db : Database)
      → Fresh job db
      → store.save_job job db ≡ (ok tt, inserted job text db)
      → c.scan db.driver (new_row job text) ≡ some (as_saved job)
      → RoundTrips store job db
  inserted-RoundTrips job text db f e scans =
      let stored : Stored c.scan job.id (new_row job text) (as_saved job) (inserted job text db) =
        record {
          healthy = f.healthy;
          found = find-inserted job text db.rows f.fresh;
          scans = scans;
        } in
      record {
        saves = ap (λ (x : Result Error (Unit {0}) × Database). x.0) e;
        reads =
            ap (λ (x : Result Error (Unit {0}) × Database). (store.get_job job.id x.1).0) e
            ∙ ap (λ (x : Result Error (Option Job) × Database). x.0)
                (c.get_found job.id (new_row job text) (as_saved job) (inserted job text db)
                  stored);
        others = λ id h.
            ap (λ (x : Result Error (Unit {0}) × Database). find id x.1.rows) e
            ∙ find-others id job text db.rows h;
      }

pub save_job-inserted :
    (job : Job) (m : List (String × Value)) (text : String) (db : Database)
    → job.payload ≡ some m
    → Encodes db.driver job.payload text
    → Fresh job db
    → Sqlite.Updates.save_job job db ≡ (ok tt, inserted job text db)
unfolding Sqlite.Updates.save_job
save_job-inserted job m text db e c f = ground (arith, f.healthy db.calls)

pub scan_job-new_row :
    (job : Job) (m : List (String × Value)) (text : String) (db : Database)
    → job.payload ≡ some m
    → Encodes db.driver job.payload text
    → scan_job db.driver (new_row job text) ≡ some (as_saved job)
scan_job-new_row job m text db e c = ground arith

-- On SQLite, with a driver that answers and a codec that keeps the payload: `SaveJob` of a job with a
-- payload and a new key succeeds, `GetJob` then returns the job as it was saved, and the row of any
-- other key is as before.
pub sqlite-RoundTrips :
    (job : Job) (m : List (String × Value)) (text : String) (db : Database)
    → job.payload ≡ some m
    → Encodes db.driver job.payload text
    → Fresh job db
    → RoundTrips sqlite job db
sqlite-RoundTrips job m text db e c f =
    inserted-RoundTrips sqlite sqlite_contract job text db f (save_job-inserted job m text db e c f)
      (scan_job-new_row job m text db e c)
