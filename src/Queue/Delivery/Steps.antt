-- ===== src/Queue/Delivery/Steps.antt =====
-- What `Ack`, `Nack`, `Requeue` and `Retry` do on a driver that answers, to the row and to the
-- queue in memory.
use rjq.Common.{
  ℕ, suc, String, true, Option, some, ◌∷◌, ◌≡◌, refl, inl, inr, if◌then◌else◌, leb, ap, ◌∙◌,
  Bool-cases,
}
use rjq.Common.Monad.{Result, ok, Method}
use rjq.Models.{Job, Status, pending, completed, failed, is_failed, Message, empty, exhausted}
use rjq.Errors.{Error, jobs_completed}
use rjq.Storage.Rows.{Row, update}
use rjq.Storage.Rows.Laws.{KeepsId, map_row, find-update_self}
use rjq.Storage.Database.{Driver, Database, tick}
use rjq.Storage.Interface.{Storage}
use rjq.Storage.Contract.{Contract, Stored, Reads, Resets, updated, counted_retry}
use rjq.Storage.Sqlite.Updates.{set_status, set_retry, set_requeued, if_failed}
use rjq.Queue.Delivery.{Backed, set_queue, ack, nack, requeue, retry}

-- Reading a row leaves it there.
Stored-tick :
    (scan : Driver → Row → Option Job) (id : String) (r : Row) (j : Job) (db : Database)
    → Stored scan id r j db
    → Stored scan id r j (tick db)
Stored-tick scan id r j db h = record { healthy = h.healthy; found = h.found; scans = h.scans }

module _ {Q : Type 0} (store : Storage) (c : Contract store)
    (enqueue : Job → Method Q Error (Unit {0})) where
  -- The database after the row was read, and the retry count written.
  abbrev pub nacked : String → Status → ℕ → Message → ℕ → Job → Database → Database
  nacked id st n m now j db = record (updated id (set_retry st n m now) (tick (tick db))) {
    metrics = counted_retry st j.queue_type db.metrics;
  }

  abbrev pub nack_result : String → ℕ → Job → Backed Q → Result Error (Unit {0}) × Backed Q
  nack_result id now j s =
      let n = suc j.retry_count in
      if leb j.max_retries n
      then (ok tt, record s { db = nacked id failed n (exhausted n) now j s.db })
      else set_queue (nacked id pending n empty now j s.db)
          (enqueue (record j { status = pending; retry_count = n }) s.queue)

  -- `Nack` of a stored job counts one retry. With its retries used up the job fails for good, with
  -- a message, and is not enqueued; else it is pending again and is enqueued with the new count.
  pub nack_found :
      (id : String) (now : ℕ) (r : Row) (j : Job) (s : Backed Q)
      → Stored c.scan id r j s.db
      → nack store enqueue id now s ≡ nack_result id now j s
  unfolding nack
  nack_found id now r j s h =
      let n = suc j.retry_count in
      let t = Stored-tick c.scan id r j s.db h in
      elim (Bool-cases (leb j.max_retries n)) [
        | inl e ↦
            simp (c.get_found id r j s.db h, e)
              (simp (c.retry_found id failed n (exhausted n) now r j (tick s.db) t))
        | inr e ↦
            simp (c.get_found id r j s.db h, e)
              (simp (c.retry_found id pending n empty now r j (tick s.db) t))
      ]

  -- A row that an UPDATE leaves its key and its payload is still stored.
  pub restored :
      (id : String) (f : Row → Row) (r : Row) (j : Job) (db db' : Database)
      → KeepsId f
      → (f r).payload ≡ r.payload
      → Stored c.scan id r j db
      → db'.rows ≡ update id f db.rows
      → db'.driver ≡ db.driver
      → (i : Job) × Stored c.scan id (f r) i db'
  restored id f r j db db' k p h e d =
      let (i, scans) = c.scan_again db.driver r (f r) j p h.scans in
      (
        i,
        record {
          healthy = rw d h.healthy;
          found = rw e (find-update_self id f db.rows k ∙ ap (map_row f) h.found);
          scans = rw d scans;
        },
      )

  -- `Ack` and `SetProcessing` of a stored job write the status and count it, and leave the queue.
  pub ack_found :
      (id : String) (now : ℕ) (r : Row) (j : Job) (s : Backed Q)
      → Stored c.scan id r j s.db
      → ack store enqueue id now s ≡ (
        ok tt,
        record s {
          db = record (updated id (set_status completed empty now) (tick s.db)) {
            metrics = jobs_completed j.queue_type ∷ s.db.metrics;
          };
        },
      )
  unfolding ack
  ack_found id now r j s h = simp (c.status_found id completed empty now r j s.db h)

  -- What `Requeue` and `Retry` come to once the row reads `f r`.
  abbrev pub Reenqueued :
      String → (Row → Row) → Row → Job → Backed Q → Result Error (Unit {0}) × Backed Q → Type 0
  Reenqueued id f r j s x =
      (i : Job) × (c.scan s.db.driver (f r) ≡ some i)
      × Reads (f r) i
      × (x ≡ set_queue (tick (updated id f s.db)) (enqueue (record i { status = pending }) s.queue))

  pub requeue_found :
      (id : String) (now : ℕ) (r : Row) (j : Job) (s : Backed Q)
      → Stored c.scan id r j s.db
      → Reenqueued id (set_requeued now) r j s (requeue store enqueue id now s)
  unfolding requeue
  requeue_found id now r j s h =
      let db = updated id (set_requeued now) s.db in
      let (i, t) = restored id (set_requeued now) r j s.db db (λ _. refl) refl h refl refl in
      (
        i,
        t.scans,
        c.scan_reads _ _ i t.scans,
        simp (c.requeue_found id now s.db h.healthy) (simp (c.get_found id _ i db t)),
      )

  pub reset-KeepsId : (extra now : ℕ) → KeepsId (if_failed (c.reset extra now))
  reset-KeepsId extra now r = elim (Bool-cases (is_failed r.status)) [
    | inl e ↦ rw e (c.reset_resets extra now r).id
    | inr e ↦ rw e refl
  ]

  reset-Resets :
      (extra now : ℕ) (r : Row)
      → r.status ≡ failed
      → Resets extra r (if_failed (c.reset extra now) r)
  reset-Resets extra now r e =
      let b : is_failed r.status ≡ true = rw e refl in simp b (c.reset_resets extra now r)

  -- `Retry` of a failed job raises its limit, makes it pending and enqueues it as the row now reads.
  pub retry_found :
      (id : String) (extra now : ℕ) (r : Row) (j : Job) (s : Backed Q)
      → Stored c.scan id r j s.db
      → r.status ≡ failed
      → let f = if_failed (c.reset extra now) in
        Resets extra r (f r) × Reenqueued id f r j s (retry store enqueue id extra now s)
  unfolding retry
  retry_found id extra now r j s h e =
      let f = if_failed (c.reset extra now) in
      let q = reset-Resets extra now r e in
      let db = updated id f s.db in
      let (i, t) = restored id f r j s.db db (reset-KeepsId extra now) q.payload h refl refl in
      (
        q,
        (
          i,
          t.scans,
          c.scan_reads _ _ i t.scans,
          simp (c.reset_found id extra now r s.db h.healthy h.found e)
              (simp (c.get_found id (f r) i db t)),
        ),
      )
