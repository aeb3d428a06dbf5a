-- ===== src/Queue/Delivery/Attempts.antt =====
-- How many times a job may fail: the count of retries over a sequence of `Nack`s.
use rjq.Common.{
  ℕ, suc, ◌+◌, ◌≤◌, ◌<◌, String, some, List, [], ◌∷◌, ◌≡◌, refl, inl, inr, if◌then◌else◌, leb,
  length, arith, ap, ◌∙◌, Bool-cases,
}
use rjq.Common.Monad.{Method}
use rjq.Models.{Job, Status, pending, failed, empty, exhausted}
use rjq.Errors.{Error}
use rjq.Storage.Rows.{Row, find, update}
use rjq.Storage.Rows.Laws.{KeepsId}
use rjq.Storage.Database.{Database}
use rjq.Storage.Interface.{Storage}
use rjq.Storage.Contract.{Contract, Stored}
use rjq.Storage.Sqlite.Updates.{set_retry}
use rjq.Queue.Delivery.{Backed, nack}
use rjq.Queue.Delivery.Steps.{nack_found, restored}

-- The row that one `Nack` leaves, of a job with the new count `n` and the given limit.
abbrev pub nack_row : ℕ → ℕ → ℕ → Row → Row
nack_row max n now r =
    if leb max n then set_retry failed n (exhausted n) now r else set_retry pending n empty now r

module _ {Q : Type 0} (store : Storage) (c : Contract store)
    (enqueue : Job → Method Q Error (Unit {0})) where
  -- A `Nack` at each of the given times, whatever the calls return.
  pub nacks : String → List ℕ → Backed Q → Backed Q
  nacks id [] s = s
  nacks id (now ∷ times) s = nacks id times (nack store enqueue id now s).1

  pub nack_one :
      (id : String) (now : ℕ) (r : Row) (j : Job) (s : Backed Q)
      → Stored c.scan id r j s.db
      → (i : Job) × Stored c.scan id
          (nack_row j.max_retries (suc j.retry_count) now r)
          i
          (nack store enqueue id now s).1.db
  nack_one id now r j s h =
      let n = suc j.retry_count in
      let rest =
        λ (f : Row → Row) (k : KeepsId f) (p : (f r).payload ≡ r.payload) (db : Database)
            (e : db.rows ≡ update id f s.db.rows) (d : db.driver ≡ s.db.driver).
          restored store c enqueue id f r j s.db db k p h e d in
      elim (Bool-cases (leb j.max_retries n)) [
        | inl e ↦
            simp (nack_found store c enqueue id now r j s h, e)
              (rest (set_retry failed n (exhausted n) now) (λ _. refl) refl _ refl refl)
        | inr e ↦
            simp (nack_found store c enqueue id now r j s h, e)
              (rest (set_retry pending n empty now) (λ _. refl) refl _ refl refl)
      ]

  -- The row of the job after some retries.
  pub record Left (id : String) (r : Row) (n : ℕ) (st : Status) (s : Backed Q) : Type 0 where
    pub row : Row
    pub job : Job
    pub stored : Stored c.scan id row job s.db
    pub retry_count : row.retry_count ≡ r.retry_count + n
    pub max_retries : row.max_retries ≡ r.max_retries
    pub status : row.status ≡ st

  nack_row-pending :
      (max n now : ℕ) (r : Row)
      → n < max
      → ((nack_row max n now r).retry_count ≡ n)
        × ((nack_row max n now r).max_retries ≡ r.max_retries)
        × ((nack_row max n now r).status ≡ pending)
  nack_row-pending max n now r h = ground arith

  nack_row-failed :
      (max n now : ℕ) (r : Row)
      → max ≤ n
      → ((nack_row max n now r).retry_count ≡ n)
        × ((nack_row max n now r).max_retries ≡ r.max_retries)
        × ((nack_row max n now r).status ≡ failed)
        × ((nack_row max n now r).error_message ≡ some (exhausted n))
        × ((nack_row max n now r).processed_at ≡ some now)
  nack_row-failed max n now r h = ground arith

  abbrev pub status_after : Status → List ℕ → Status
  status_after st [] = st
  status_after st (_ ∷ _) = pending

  status_after-pending : (times : List ℕ) → status_after pending times ≡ pending
  status_after-pending [] = refl
  status_after-pending (_ ∷ _) = refl

  -- While retries are left, each `Nack` uses up one and leaves the job pending.
  nacks-Left :
      (id : String) (times : List ℕ) (r : Row) (j : Job) (s : Backed Q)
      → Stored c.scan id r j s.db
      → r.retry_count + length times < r.max_retries
      → Left id r (length times) (status_after r.status times) (nacks id times s)
  unfolding nacks
  nacks-Left id [] r j s h lt = record {
    row = r;
    job = j;
    stored = h;
    retry_count = omega arith;
    max_retries = refl;
    status = refl;
  }
  nacks-Left id (now ∷ times) r j s h lt =
      let n = suc j.retry_count in
      let reads = c.scan_reads s.db.driver r j h.scans in
      let (i, t) = nack_one id now r j s h in
      let r' = nack_row j.max_retries n now r in
      let facts = nack_row-pending j.max_retries n now r (omega arith) in
      let left = nacks-Left id times r' i (nack store enqueue id now s).1 t (omega arith) in
      record {
        row = left.row;
        job = left.job;
        stored = left.stored;
        retry_count = omega (arith, left.retry_count);
        max_retries = left.max_retries ∙ facts.1;
        status = left.status ∙ (rw facts.2 (status_after-pending times));
      }

  -- The row of a job that has failed for good.
  pub record Failed (id : String) (r : Row) (now : ℕ) (s : Backed Q) : Type 0 where
    pub row : Row
    pub found : find id s.db.rows ≡ some row
    pub status : row.status ≡ failed
    pub retry_count : row.retry_count ≡ r.max_retries
    pub error_message : row.error_message ≡ some (exhausted r.max_retries)
    pub processed_at : row.processed_at ≡ some now

  -- A stored job whose limit is `k` retries away is pending after each of the first `k - 1` `Nack`s
  -- and fails for good at the next, with its limit as the count and in the message. This holds
  -- whatever the queue in memory makes of the calls of `Enqueue`.
  pub nack_attempts :
      (id : String) (times : List ℕ) (now : ℕ) (r : Row) (j : Job) (s : Backed Q)
      → Stored c.scan id r j s.db
      → r.retry_count + suc (length times) ≡ r.max_retries
      → Left id r (length times) (status_after r.status times) (nacks id times s)
        × Failed id r now (nack store enqueue id now (nacks id times s)).1
  nack_attempts id times now r j s h e =
      let left = nacks-Left id times r j s h (omega arith) in
      let n = suc left.job.retry_count in
      let reads = c.scan_reads _ left.row left.job left.stored.scans in
      let (i, t) = nack_one id now left.row left.job (nacks id times s) left.stored in
      let facts =
        nack_row-failed left.job.max_retries n now left.row (
          omega
            (arith, left.retry_count, left.max_retries, reads.max_retries, reads.retry_count)) in
      let at_limit : n ≡ r.max_retries =
        omega (arith, left.retry_count, left.max_retries, reads.max_retries, reads.retry_count) in
      (
        left,
        record {
          row = nack_row left.job.max_retries n now left.row;
          found = t.found;
          status = facts.2;
          retry_count = facts.0 ∙ at_limit;
          error_message = facts.3 ∙ ap (λ k. some (exhausted k)) at_limit;
          processed_at = facts.4;
        },
      )
