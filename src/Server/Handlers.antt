-- ===== src/Server/Handlers.antt =====
-- Whatever a relation with the laws of `Kept` says, the handlers and the workers' taking of jobs keep.
use rjq.Common.{
  Bool, true, false, if◌then◌else◌, ℕ, String, Option, none, some, List, [], ◌∷◌, ◌≡◌, refl, sym,
  ap, subst, inl, inr, All, ◌==◌, str_eq, Bool-cases,
}
use rjq.Common.Monad.{Result, ok, err}
use rjq.Models.{Job, is_failed, priority_super_urgent}
use rjq.Errors.{Error}
use rjq.Storage.Rows.Laws.{ids, ids-append}
use rjq.Storage.Database.{Database}
use rjq.Storage.Interface.{Storage}
use rjq.Storage.Contract.{Contract, Saves}
use rjq.Queue.Router.{Router, Pass}
use rjq.Queue.Router
use rjq.Queue.Router.Sound.{Extends, Extends-refl, Extends_same}
use rjq.Queue.Router.Sound.Methods
use rjq.Queue.Router.Sound.Waits.{Considerate}
use rjq.Queue.Router.Sound.Polls.{enqueue-Carries, dequeue-Carries}
use rjq.Worker.{
  System, on_router, on_slot, next_job, or_dequeue, take_preempted, goes_on, worker_round,
  leave_job,
}
use rjq.Worker
use rjq.Api.{
  Request, Response, new_job, create_job, retry_job, enqueued, preempted, deliver, saved,
  count_submitted, on_queue,
}
use rjq.Api
use rjq.Api.Routes.{
  Route, creating, getting, retrying, stats, health, listing, dashboard, processing, pending,
  metrics, counts, elsewhere, pending_fifo, pending_priority, pending_rate_limited, serve,
}
use rjq.Api.Routes.Reading.{AsksOnce, IsReading, serve-IsSame}
use rjq.Server.Invariant.{Leads, slotted}
use rjq.Server.Kept.{Kept}

enqueued-same : (job : Job) (x : Result Error (Unit {0})) (t : System) → (enqueued job (x, t)).1 ≡ t
enqueued-same job (ok _) t = refl
enqueued-same job (err e) t = refl

module _ (R : System → System → Type 0) (k : Kept R) where
  -- A step of the database alone.
  changes_db :
      (s : System) (db : Database)
      → Extends s.router.db db
      → R s (record s { router = record (s.router) { db = db } })
  changes_db s db h =
      k.routes s (record (s.router) { db = db })
        (record {
          rows = h;
          sound = λ p. record {
            fifo_fits = p.fifo_fits;
            sorted = p.sorted;
            rate_limited_fits = p.rate_limited_fits;
            within_burst = p.within_burst;
          };
          drained = λ d. d;
        })

  enqueued-Kept : (job : Job) (s : System) → R s (enqueued job (on_queue (Router.enqueue job) s)).1
  enqueued-Kept job s =
      subst (λ u. R s u)
        (sym (enqueued-same job (Router.enqueue job s.router).0 (on_router (Router.enqueue job) s)))
        (k.routes s _ (enqueue-Carries job s.router))

  deliver-Kept : (job : Job) (s : System) → R s (deliver job s).1
  deliver-Kept job s = elim (Bool-cases (job.priority == priority_super_urgent)) [
    | inr e ↦ simp e (enqueued-Kept job s)
    | inl e ↦ simp e (go (Worker.preempt job s) (k.preempts job s))
  ]
    where
      go : (x : Result Error String × System) → R s x.1 → R s (preempted job x).1
      go (ok id, t) h = h
      go (err e, t) h = k.trans s t _ h (enqueued-Kept job t)

  module _ (store : Storage) (c : Contract store) where
    save-Extends : (job : Job) (db : Database) → Extends db (store.save_job job db).1
    save-Extends job db = go (store.save_job job db) (c.save_saves job db)
      where
        go : (x : Result Error (Unit {0}) × Database) → Saves job db x → Extends db x.1
        go (ok _, t) h = (job.id ∷ [], rw h.2 (ids-append db.rows (_ ∷ [])))
        go (err e, t) h = Extends_same _ _ (ap ids h.0)

    pub create_job-Kept :
        (body : Option Request) (id : String) (now : ℕ) (s : System)
        → R s (create_job store body id now s).1
    unfolding create_job
    create_job-Kept none id now s = k.same s
    create_job-Kept (some req) id now s = elim (Bool-cases (str_eq req.job_type "")) [
      | inl e ↦ simp e (k.same s)
      | inr e ↦
          let job = new_job req id now in
          let (x, db) = store.save_job job s.router.db in
          let t : System = record s { router = record (s.router) { db = db } } in
          simp e
            (k.trans s t _ (changes_db s db (save-Extends job s.router.db)) (from_saved job x t))
    ]
      where
        from_saved :
            (job : Job) (x : Result Error (Unit {0})) (t : System) → R t (saved job (x, t)).1
        from_saved job (ok _) t =
            k.trans t (count_submitted job.queue_type t) _
              (changes_db t (count_submitted job.queue_type t).router.db (Extends-refl t.router.db))
              (deliver-Kept job (count_submitted job.queue_type t))
        from_saved job (err e) t = k.same t

    get-Extends : (id : String) (s : System) → Extends s.router.db (store.get_job id s.router.db).1
    get-Extends id s = Extends_same _ _ (c.get_keeps id s.router.db).0

    pub retry_job-Kept : (id : String) (now : ℕ) (s : System) → R s (retry_job store id now s).1
    unfolding retry_job
    retry_job-Kept id now s =
        let (x, db) = store.get_job id s.router.db in
        k.trans s _ _ (changes_db s db (get-Extends id s))
          (found x (record s { router = record (s.router) { db = db } }))
      where
        retried : (x : Result Error (Unit {0})) (t : System) → (Api.retried store id (x, t)).1 ≡ t
        retried (ok _) t = refl
        retried (err e) t = refl

        found :
            (x : Result Error (Option Job)) (t : System)
            → R t (Api.retry_found store id now (x, t)).1
        found (ok (some job)) t = elim (Bool-cases (is_failed job.status)) [
          | inl b ↦ simp b (
              subst (λ u. R t u)
                (sym (
                  retried (Router.retry store id 3 now t.router).0
                    (on_router (Router.retry store id 3 now) t)))
                (k.routes t _ (Methods.retry-IsCarried store c id 3 now t.router)))
          | inr b ↦ simp b (k.same t)
        ]
        found (ok none) t = k.same t
        found (err e) t = k.same t

    module _ (asks : AsksOnce store) (reply : Response) where
      reading-Kept :
          (r : Route) (body : Option Request) (id : String) (now : ℕ) (s : System)
          → IsReading r
          → R s (serve store reply r body id now s).1
      reading-Kept r body id now s h =
          let (n, e) = serve-IsSame store asks reply r body id now s h in
          subst (R s) (sym e)
            (changes_db s (record (s.router.db) { calls = n }) (Extends-refl s.router.db))

      -- A request, to whatever route.
      pub serve-Kept :
          (r : Route) (body : Option Request) (id : String) (now : ℕ) (s : System)
          → R s (serve store reply r body id now s).1
      unfolding serve
      serve-Kept creating body id now s = create_job-Kept body id now s
      serve-Kept (retrying i) body id now s = retry_job-Kept i now s
      serve-Kept (getting i) body id now s = reading-Kept (getting i) body id now s tt
      serve-Kept stats body id now s = reading-Kept stats body id now s tt
      serve-Kept health body id now s = reading-Kept health body id now s tt
      serve-Kept listing body id now s = reading-Kept listing body id now s tt
      serve-Kept dashboard body id now s = reading-Kept dashboard body id now s tt
      serve-Kept processing body id now s = reading-Kept processing body id now s tt
      serve-Kept pending body id now s = reading-Kept pending body id now s tt
      serve-Kept metrics body id now s = reading-Kept metrics body id now s tt
      serve-Kept counts body id now s = reading-Kept counts body id now s tt
      serve-Kept elsewhere body id now s = reading-Kept elsewhere body id now s tt
      serve-Kept pending_fifo body id now s = reading-Kept pending_fifo body id now s tt
      serve-Kept pending_priority body id now s = reading-Kept pending_priority body id now s tt
      serve-Kept pending_rate_limited body id now s =
          reading-Kept pending_rate_limited body id now s tt

  -- A worker that takes a job first clears its own slot.
  module _ (id : ℕ)
      (cleared : (s : System) → R s (on_slot id (λ x. record x { preempt = none }) s)) where
    next_job-Kept :
        (passes : List Pass) (s : System) → All Considerate passes → R s (next_job id passes s).1
    unfolding next_job take_preempted
    next_job-Kept passes s h =
        let (o, t) = take_preempted id s in k.trans s t _ (cleared s) (go o t)
      where
        go : (o : Option Job) (t : System) → R t (or_dequeue passes (o, t)).1
        go (some job) t = k.same t
        go none t = k.routes t _ (dequeue-Carries passes t.router h)

    pub worker_round-Kept :
        (passes : List Pass) (s : System)
        → All Considerate passes
        → R s (worker_round id passes s).1
    unfolding worker_round
    worker_round-Kept passes s h = go s.pool.done
      where
        go : (done : Bool) → R s (if done then (none, s) else goes_on (next_job id passes s)).1
        go true = k.same s
        go false = next_job-Kept passes s h

-- A processor that panics takes the worker's job from its slot.
pub leave_job-Leads : (id : ℕ) (s : System) → Leads s (leave_job id s)
unfolding leave_job
leave_job-Leads id s = slotted id (λ x. record x { current = none }) s
