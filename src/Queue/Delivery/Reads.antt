-- ===== src/Queue/Delivery/Reads.antt =====
-- What a recovery reads, enqueues and writes, as functions of the jobs and of the rows.
use rjq.Common.{
  ℕ, String, Bool, true, Option, some, List, [], ◌∷◌, ◌≡◌, subst, ◌∙◌, ◌⊎◌, inl, inr, if◌then◌else◌,
  All, str_eq, arith, Bool-cases,
}
use rjq.Common.Monad.{ok, Method}
use rjq.Models.{Job, pending, is_processing, empty}
use rjq.Errors.{Error}
use rjq.Storage.Rows.{Row, find, update}
use rjq.Storage.Rows.Laws.{KeepsId, find-update}
use rjq.Storage.Database.{Driver, Database, Healthy}
use rjq.Storage.Sqlite.Updates.{set_status}

-- A driver that answers, and a table whose rows all scan.
pub record Ready (scan : Driver → Row → Option Job) (db : Database) : Type 0 where
  pub healthy : Healthy db.driver
  pub scans : All (λ r. (j : Job) × (scan db.driver r ≡ some j)) db.rows

abbrev pub Known : String → List Row → Type 0
Known id rows = (r : Row) × (find id rows ≡ some r)

abbrev pub AllKnown : List Job → List Row → Type 0
AllKnown jobs rows = All (λ (job : Job). Known job.id rows) jobs

pub All-find :
    (P : Row → Type 0) (id : String) (rows : List Row) (r : Row)
    → All P rows
    → find id rows ≡ some r
    → P r
All-find P id [] r h e = cc
All-find P id (s ∷ rows) r h e = elim (Bool-cases (str_eq id s.id)) [
  | inl b ↦ let same : s ≡ r = ground arith in subst P same h.0
  | inr b ↦ All-find P id rows r h.1 (simp b at e)
]

pub Known-update :
    (id k : String) (f : Row → Row) (rows : List Row)
    → KeepsId f
    → Known id rows
    → Known id (update k f rows)
Known-update id k f rows h (r, e) = elim (Bool-cases (str_eq id k)) [
  | inl b ↦ (f r, find-update id k f rows h ∙ simp (b, e))
  | inr b ↦ (r, find-update id k f rows h ∙ simp (b, e))
]

-- What `recover_job` enqueues, and does to the table.
abbrev pub ready : Job → Job
ready job = if is_processing job.status then record job { status = pending } else job

abbrev pub reset_rows : ℕ → Job → List Row → List Row
reset_rows now job rows =
    if is_processing job.status then update job.id (set_status pending empty now) rows else rows

module _ {Q : Type 0} (enqueue : Job → Method Q Error (Unit {0})) (skip : Job → Bool) where
  abbrev pub enqueue_jobs : List Job → Q → Q
  enqueue_jobs [] q = q
  enqueue_jobs (job ∷ jobs) q =
      enqueue_jobs jobs (if skip job then q else (enqueue (ready job) q).1)

  -- The queue takes every job that is not skipped.
  abbrev pub Accepts : List Job → Q → Type 0
  Accepts [] q = Unit {0}
  Accepts (job ∷ jobs) q =
      ((skip job ≡ true) ⊎ ((enqueue (ready job) q).0 ≡ ok tt))
      × Accepts jobs (if skip job then q else (enqueue (ready job) q).1)

  abbrev pub reset_all : ℕ → List Job → List Row → List Row
  reset_all now [] rows = rows
  reset_all now (job ∷ jobs) rows =
      reset_all now jobs (if skip job then rows else reset_rows now job rows)
