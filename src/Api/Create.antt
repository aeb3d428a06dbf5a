-- ===== src/Api/Create.antt =====
-- `POST /jobs`: what `CreateJob` saves, and to whom it hands the job.
use rjq.Common.{
  ℤ, pos, negsuc, ℕ, ◌≤◌, String, false, none, some, [], ◌∷◌, ◌++◌, ◌≡◌, refl, sym, ap, ◌∙◌, ◌⊎◌,
  inl, inr, ◌==◌, str_eq, arith, Bool-cases,
}
use rjq.Common.Monad.{Result, ok, err}
use rjq.Models.{Job, priority_super_urgent}
use rjq.Errors.{Error}
use rjq.Storage.Rows.{find}
use rjq.Storage.Database.{Database}
use rjq.Storage.Interface.{Storage}
use rjq.Storage.Sqlite.Scan.{new_row}
use rjq.Storage.Contract.{Contract, Saves}
use rjq.Storage.RoundTrip.{find-inserted}
use rjq.Queue.Router.{Router}
use rjq.Queue.Router
use rjq.Queue.Router.Calls.{enqueue-err, enqueue-db}
use rjq.Worker.{System}
use rjq.Worker
use rjq.Worker.Preempt.{Picks, Outcome, preempt-Outcome}
use rjq.Api.{
  Request, Response, write_error, new_job, on_queue, count_submitted, enqueued, preempted, deliver,
  saved, create_job, valid_priority,
}

pub record SameQueues (s s' : System) : Type 0 where
  pub fifo : s'.router.fifo ≡ s.router.fifo
  pub priority : s'.router.priority ≡ s.router.priority
  pub rate_limited : s'.router.rate_limited ≡ s.router.rate_limited

-- Where a saved job goes: to the slot of a worker, to its queue, or nowhere.
pub data Delivers (job : Job) (s : System) (code : ℕ) (s' : System) : Type 0 where
  to_worker :
      (j : Job)
      → job.priority ≡ priority_super_urgent
      → code ≡ 201
      → Picks job j s.pool.slots s'.pool.slots
      → SameQueues s s'
      → Delivers job s code s'
  to_queue :
      code ≡ 201
      → s'.pool ≡ s.pool
      → Router.enqueue job s.router ≡ (ok tt, s'.router)
      → Delivers job s code s'
  to_nobody :
      (e : Error)
      → code ≡ 500
      → s' ≡ s
      → Router.enqueue job s.router ≡ (err e, s.router)
      → Delivers job s code s'

enqueued-Delivers :
    (job : Job) (s : System)
    → let (resp, s') = enqueued job (on_queue (Router.enqueue job) s) in
      Delivers job s resp.code s' × (s'.router.db.rows ≡ s.router.db.rows)
enqueued-Delivers job s = go (Router.enqueue job s.router) refl
  where
    go :
        (x : Result Error (Unit {0}) × Router)
        → Router.enqueue job s.router ≡ x
        → let (resp, s') = enqueued job (x.0, record s { router = x.1 }) in
          Delivers job s resp.code s' × (s'.router.db.rows ≡ s.router.db.rows)
    go (ok _, r) e = (
      to_queue refl refl e,
      ap (λ (x : Result Error (Unit {0}) × Router). x.1.db.rows) (sym e)
          ∙ ap (λ (db : Database). db.rows) (enqueue-db job s.router),
    )
    go (err x, r) e =
        let same = enqueue-err job s.router r x e in
        (to_nobody x refl (rw same) (rw same at e), rw same)

pub deliver-Delivers :
    (job : Job) (s : System)
    → let (resp, s') = deliver job s in
      Delivers job s resp.code s' × (s'.router.db.rows ≡ s.router.db.rows)
deliver-Delivers job s = elim (Bool-cases (job.priority == priority_super_urgent)) [
  | inr e ↦ simp e (enqueued-Delivers job s)
  | inl e ↦ simp e (go (ground arith) (Worker.preempt job s) (preempt-Outcome job s))
]
  where
    go :
        job.priority ≡ priority_super_urgent
        → (x : Result Error String × System) → Outcome job s x
        → let (resp, s') = preempted job x in
          Delivers job s resp.code s' × (s'.router.db.rows ≡ s.router.db.rows)
    go p (ok id, s') o = (
      to_worker o.0 p refl o.2 (record {
        fifo = ap (λ (r : Router). r.fifo) o.3;
        priority = ap (λ (r : Router). r.priority) o.3;
        rate_limited = ap (λ (r : Router). r.rate_limited) o.3;
      }),
      ap (λ (r : Router). r.db.rows) o.3,
    )
    go p (err e, s') o = rw o.1 (enqueued-Delivers job s)

-- The job is in the table, as the last row, and its key was not there before.
pub record Persisted (job : Job) (s s' : System) : Type 0 where
  pub payload : String
  pub fresh : find job.id s.router.db.rows ≡ none
  pub rows : s'.router.db.rows ≡ s.router.db.rows ++ (new_row job payload ∷ [])
  pub found : find job.id s'.router.db.rows ≡ some (new_row job payload)

-- The outcome of `CreateJob` for a request with a job type.
pub data Created (job : Job) (s : System) (resp : Response) (s' : System) : Type 0 where
  not_saved :
      resp ≡ write_error 500 "failed to create job"
      → s'.router.db.rows ≡ s.router.db.rows
      → s'.pool ≡ s.pool
      → SameQueues s s'
      → Created job s resp s'
  is_saved :
      (t : System)
      → t.pool ≡ s.pool
      → SameQueues s t
      → Persisted job s t
      → Persisted job s s'
      → Delivers job t resp.code s'
      → Created job s resp s'

saved-Created :
    (job : Job) (s : System) (x : Result Error (Unit {0}) × Database)
    → Saves job s.router.db x
    → let (resp, s') = saved job (x.0, record s { router = record (s.router) { db = x.1 } }) in
      Created job s resp s'
saved-Created job s (err e, db) h =
    not_saved refl h.0 refl (record { fifo = refl; priority = refl; rate_limited = refl })
saved-Created job s (ok _, db) h =
    let t : System =
      count_submitted job.queue_type (record s { router = record (s.router) { db = db } }) in
    let (d, same) = deliver-Delivers job t in
    let text = h.0 in
    let here = λ (u : System) (e : u.router.db.rows ≡ s.router.db.rows ++ (new_row job text ∷ [])).
      persisted text h.1 u e in
    is_saved t refl (record { fifo = refl; priority = refl; rate_limited = refl }) (here t h.2)
      (here (deliver job t).1 (same ∙ h.2)) d
  where
    persisted :
        (text : String)
        → find job.id s.router.db.rows ≡ none
        → (u : System) → u.router.db.rows ≡ s.router.db.rows ++ (new_row job text ∷ [])
        → Persisted job s u
    persisted text fresh u e = record {
      payload = text;
      fresh = fresh;
      rows = e;
      found = rw e (find-inserted job text s.router.db.rows fresh);
    }

module _ (store : Storage) (c : Contract store) where
  -- `POST /jobs`, for a request with a job type, whatever the driver answers. Either the job is not
  -- saved: the answer is a 500, and no queue, no worker and no row has changed. Or it was saved, as
  -- one new row, before it was handed on, and the row stays: then a super-urgent job went to the
  -- slot of a worker that ran a normal job, or the job went to the queue of its type, each with a
  -- 201, or its queue refused it, with a 500.
  pub create_job-Created :
      (req : Request) (id : String) (now : ℕ) (s : System)
      → str_eq req.job_type "" ≡ false
      → let (resp, s') = create_job store (some req) id now s in
        Created (new_job req id now) s resp s'
  unfolding create_job
  create_job-Created req id now s h = simp h (
      saved-Created (new_job req id now) s (store.save_job (new_job req id now) s.router.db)
        (c.save_saves (new_job req id now) s.router.db))

-- A job of the API has one of the three priorities: the one asked for, where that is one of them,
-- and else the normal one.
valid_priority_lem :
    (p : ℤ)
    → (1 ≤ valid_priority p)
      × (valid_priority p ≤ 3)
      × ((p ≡ pos (valid_priority p)) ⊎ (valid_priority p ≡ 1))
valid_priority_lem (pos n) = ground arith
valid_priority_lem (negsuc n) = ground arith
