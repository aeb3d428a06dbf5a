-- ===== src/Server/Posting.antt =====
-- internal/api/handlers.go with internal/worker/pool.go: a job from the `POST` that creates it,
-- through the worker that runs it, to the `GET` that reports on it.
use rjq.Common.{
  ℕ, suc, String, false, Option, none, some, List, [], ◌++◌, ◌≡◌, refl, ap, ◌∙◌, inl, inr, length,
  get_elem?, Bool-cases, ◌==◌, str_eq,
}
use rjq.Common.Monad.{Result, ok, err}
use rjq.Models.{Value, Payload, Job, pending, processing, completed, empty, priority_super_urgent}
use rjq.Errors.{Error}
use rjq.Storage.Rows.{Row}
use rjq.Storage.Database.{Driver, Database}
use rjq.Storage.Interface.{Storage}
use rjq.Storage.Sqlite.{sqlite}
use rjq.Storage.Sqlite.Scan.{new_row, scan_job}
use rjq.Storage.Sqlite.Updates.{set_status}
use rjq.Storage.Contract.{Contract, Stored, Reads}
use rjq.Storage.Contract.Sqlite.{sqlite_contract}
use rjq.Storage.RoundTrip.{
  Encodes, Fresh, as_saved, inserted, find-inserted, save_job-inserted, scan_job-new_row,
}
use rjq.Queue.Delivery
use rjq.Queue.Memory
use rjq.Queue.Delivery.Steps.{restored}
use rjq.Queue.Router.{Router}
use rjq.Queue.Router
use rjq.Queue.Router.Calls.{enqueue-db}
use rjq.Worker.{live, Slot, System, begin_job}
use rjq.Worker
use rjq.Worker.Preempt.{Outcome, preempt-Outcome}
use rjq.Worker.Process.{get_elem?-change}
use rjq.Api.{
  Request, respond, one, new_job, payload_or_empty, enqueued, preempted, deliver, on_queue,
  count_submitted, create_job, get_job,
}
use rjq.Api.Create.{deliver-Delivers}
use rjq.Email.{EmailProcessor, Conversation, Race, finishes}
use rjq.Email.Sending.{commands, Answered}
use rjq.Server.Jobs.{
  process_job, script_of, Unsent, Handles, is_sent, is_unsent, process_job-Handles,
}

enqueued-driver :
    (job : Job) (s : System)
    → (enqueued job (on_queue (Router.enqueue job) s)).1.router.db.driver ≡ s.router.db.driver
enqueued-driver job s = go (Router.enqueue job s.router) (enqueue-db job s.router)
  where
    go :
        (x : Result Error (Unit {0}) × Router)
        → x.1.db ≡ s.router.db
        → (enqueued job (x.0, record s { router = x.1 })).1.router.db.driver ≡ s.router.db.driver
    go (ok _, r) e = ap (λ (db : Database). db.driver) e
    go (err x, r) e = ap (λ (db : Database). db.driver) e

deliver-driver : (job : Job) (s : System) → (deliver job s).1.router.db.driver ≡ s.router.db.driver
deliver-driver job s = elim (Bool-cases (job.priority == priority_super_urgent)) [
  | inr e ↦ simp e (enqueued-driver job s)
  | inl e ↦ simp e (go (Worker.preempt job s) (preempt-Outcome job s))
]
  where
    go :
        (x : Result Error String × System)
        → Outcome job s x
        → (preempted job x).1.router.db.driver ≡ s.router.db.driver
    go (ok id, t) o = ap (λ (r : Router). r.db.driver) o.3
    go (err e, t) o = rw o.1 (enqueued-driver job s)

has_payload : (p : Payload) → (m : List (String × Value)) × (payload_or_empty p ≡ some m)
has_payload none = ([], refl)
has_payload (some m) = (m, refl)

-- What other goroutines do leaves the job's row, and the worker's slot.
pub record LeavesAlone (scan : Driver → Row → Option Job) (key : String) (id : ℕ)
    (others : System → System) : Type 0 where
  pub row :
      (r : Row) (j : Job) (u : System)
      → Stored scan key r j u.router.db
      → Stored scan key r j (others u).router.db
  pub slot :
      (x : Slot) (u : System)
      → get_elem? u.pool.slots id ≡ some x
      → get_elem? (others u).pool.slots id ≡ some x

-- What a `GET` then reports of the job, and what the server has heard.
pub data Reports (w : EmailProcessor) (job : Job) (sending delay : Race) (j : Job)
    (c c' : Conversation) : Type 0 where
  is_completed :
      j.status ≡ completed
      → j.retry_count ≡ 0
      → sending ≡ finishes
      → delay ≡ finishes
      → c'.said ≡ c.said ++ commands (script_of w job c)
      → Answered (length (script_of w job c)) c
      → Reports w job sending delay j c c'
  is_pending_again :
      j.status ≡ pending
      → j.retry_count ≡ 1
      → Unsent w job sending delay c c'
      → Reports w job sending delay j c c'

module _ (store : Storage) (c : Contract store) where
  created-Stored :
      (req : Request) (key text : String) (now : ℕ) (s : System)
      → str_eq req.job_type "" ≡ false
      → let job = new_job req key now in
        Fresh job s.router.db
        → store.save_job job s.router.db ≡ (ok tt, inserted job text s.router.db)
        → c.scan s.router.db.driver (new_row job text) ≡ some (as_saved job)
        → Stored c.scan key
            (new_row job text)
            (as_saved job)
            (create_job store (some req) key now s).1.router.db
  unfolding create_job
  created-Stored req key text now s h f e scans =
      let job = new_job req key now in
      let t : System =
        count_submitted job.queue_type
          (record s { router = record (s.router) { db = inserted job text s.router.db } }) in
      let d = deliver-driver job t in
      simp (h, e)
        (record {
          healthy = rw d f.healthy;
          found = rw ((deliver-Delivers job t).1) (find-inserted job text s.router.db.rows f.fresh);
          scans = rw d scans;
        })

  begin_job-Stored :
      (id : ℕ) (job : Job) (now : ℕ) (r : Row) (j : Job) (s : System)
      → Stored c.scan job.id r j s.router.db
      → (i : Job) × Stored c.scan job.id
          (set_status processing empty now r)
          i
          (begin_job store id job now s).router.db
  unfolding begin_job Delivery.set_processing
  begin_job-Stored id job now r j s h =
      let e = c.status_found job.id processing empty now r j s.router.db h in
      restored store c Memory.enqueue job.id (set_status processing empty now) r j s.router.db _
        (λ _. refl) refl h (ap (λ (x : Result Error (Unit {0}) × Database). x.1.rows) e)
        (ap (λ (x : Result Error (Unit {0}) × Database). x.1.driver) e)

  begin_job-slot :
      (id : ℕ) (job : Job) (now : ℕ) (slot : Slot) (s : System)
      → get_elem? s.pool.slots id ≡ some slot
      → get_elem? (begin_job store id job now s).pool.slots id
        ≡ some (record slot { current = some (job, live) })
  unfolding begin_job
  begin_job-slot id job now slot s h =
      get_elem?-change store c (λ x. record x { current = some (job, live) }) s.pool.slots id slot h

  reported :
      (w : EmailProcessor) (job : Job) (sending delay : Race) (now : ℕ) (text : String) (row : Row)
      (j : Job) (letter letter' : Conversation)
      → Reads row j
      → Handles w job sending delay live
          (set_status processing empty now (new_row job text))
          row
          letter
          letter'
      → job.retry_count ≡ 0
      → job.max_retries ≡ 3
      → Reports w job sending delay j letter letter'
  reported w job sending delay now text row j l l' h (is_sent q a b f g) z n =
      is_completed (h.status ∙ q.0) (h.retry_count ∙ q.1 ∙ z) a b f g
  reported w job sending delay now text row j l l' h (is_unsent q u) z n =
      is_pending_again (h.status ∙ q.0 ∙ (rw (z, n) refl)) (h.retry_count ∙ q.1 ∙ ap suc z) u

  -- Over any backend on which the job can be saved and read.
  saved-Reports :
      (w : EmailProcessor) (req : Request) (key text : String) (id now began ended : ℕ)
      (sending delay : Race) (s : System) (slot : Slot) (letter : Conversation)
      (before during : System → System)
      → str_eq req.job_type "" ≡ false
      → let job = new_job req key now in
        let t = before (create_job store (some req) key now s).1 in
        let (t', letter') =
          process_job store w id job sending delay during began ended (t, letter) in
        Fresh job s.router.db
        → store.save_job job s.router.db ≡ (ok tt, inserted job text s.router.db)
        → c.scan s.router.db.driver (new_row job text) ≡ some (as_saved job)
        → get_elem? t.pool.slots id ≡ some slot
        → LeavesAlone c.scan key id before
        → LeavesAlone c.scan key id during
        → (j : Job) × ((get_job store key t').0 ≡ respond 200 (one j))
          × Reports w job sending delay j letter letter'
  unfolding get_job
  saved-Reports w req key text id now began ended sending delay s slot letter before during h f e
        scans at k l =
      let job = new_job req key now in
      let u = (create_job store (some req) key now s).1 in
      let t = before u in
      let (i, begun) =
        begin_job-Stored id job began (new_row job text) (as_saved job) t
          (k.row _ _ u (created-Stored req key text now s h f e scans)) in
      let (row, j, stored, handled) =
        process_job-Handles store c w id job sending delay during began ended t letter live
          (record slot { current = some (job, live) }) _ i
          (l.row _ i (begin_job store id job began t) begun)
          (l.slot _ (begin_job store id job began t) (begin_job-slot id job began slot t at))
          refl in
      (
        j,
        simp (c.get_found key row j _ stored) refl,
        reported w job sending delay began text row j _ _ (c.scan_reads _ row j stored.scans)
            handled refl refl,
      )

-- On SQLite, with a driver that answers and a codec that keeps the payload: a `POST /jobs` with a
-- job type and a new key saves the job. If then a worker runs the new job, and the other goroutines
-- leave its row and the worker's slot alone until it has ended, `GET /jobs/{id}` reports the job. It
-- is completed, without a retry, only if the processor said the whole conversation of its letter,
-- every call succeeded and the context was done neither during the sending nor during the delay.
-- Else it is pending again with one retry, and it lacked a field and nothing was said, or the
-- conversation ended with a call that failed, or the context was done first.
pub create_job-Reports :
    (w : EmailProcessor) (req : Request) (key text : String) (id now began ended : ℕ)
    (sending delay : Race) (s : System) (slot : Slot) (letter : Conversation)
    (before during : System → System)
    → str_eq req.job_type "" ≡ false
    → let job = new_job req key now in
      let t = before (create_job sqlite (some req) key now s).1 in
      let (t', letter') =
        process_job sqlite w id job sending delay during began ended (t, letter) in
      Fresh job s.router.db
      → Encodes s.router.db.driver job.payload text
      → get_elem? t.pool.slots id ≡ some slot
      → LeavesAlone scan_job key id before
      → LeavesAlone scan_job key id during
      → (j : Job) × ((get_job sqlite key t').0 ≡ respond 200 (one j))
        × Reports w job sending delay j letter letter'
create_job-Reports w req key text id now began ended sending delay s slot letter before during h f d
      at k l =
    let (m, p) = has_payload req.payload in
    saved-Reports sqlite sqlite_contract w req key text id now began ended sending delay s slot
      letter before during h f (save_job-inserted (new_job req key now) m text s.router.db p d f)
      (scan_job-new_row (new_job req key now) m text s.router.db p d) at k l
