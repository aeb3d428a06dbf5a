-- ===== src/Server/Moves.antt =====
-- What the goroutines other than the workers do to the running server.
use rjq.Common.{ℕ, String, Option, List}
use rjq.Common.Monad.{return, ok}
use rjq.Models.{Job}
use rjq.Storage.Interface.{Storage}
use rjq.Storage.Contract.{Contract}
use rjq.Errors.{jobs_recovered}
use rjq.Storage.Database.{count_metric}
use rjq.Queue.Delivery.{on_db, recover_job, sweep_job}
use rjq.Queue.Memory
use rjq.Queue.Sorted
use rjq.Queue.RateLimited
use rjq.Queue.Router.{on_fifo, on_priority, on_rate_limited}
use rjq.Queue.Router.Sound.Methods
use rjq.Queue.Router.Sound.Polls.{refill-Carries}
use rjq.Worker.{System, on_router}
use rjq.Api.{Request, Response}
use rjq.Api.Routes.{Verb, route, serve}
use rjq.Api.Routes.Reading.{AsksOnce}
use rjq.Server.Kept.{Kept}
use rjq.Server.Handlers.{serve-Kept}

abbrev after_refill : System → System
after_refill s = record s {
  router = record (s.router) { rate_limited = RateLimited.refill s.router.rate_limited };
}

-- One step of a goroutine that is not a worker: a request, whose identifier and time are those that
-- the handler asks for; the list that the recovery or the sweeper of a queue reads; one job of that
-- recovery, which runs while the workers already take jobs, or of that sweeper; or a tick of the
-- bucket.
pub data Moves (store : Storage) : System → System → Type 0 where
  requests :
      (reply : Response) (verb : Verb) (path : List String) (body : Option Request) (id : String)
      (now : ℕ) (s : System)
      → Moves store s (serve store reply (route verb path) body id now s).1
  lists : (s : System) → Moves store s (on_router (on_fifo (on_db store.list_pending_jobs)) s)
  recovers_fifo :
      (now : ℕ) (job : Job) (s : System)
      → Moves store s (
          on_router
            (on_fifo
              (recover_job store Memory.enqueue Memory.skips (count_metric jobs_recovered) now job))
            s)
  recovers_priority :
      (now : ℕ) (job : Job) (s : System)
      → Moves store s (
          on_router
            (on_priority (recover_job store Sorted.enqueue Sorted.skips (return tt) now job))
            s)
  recovers_rate_limited :
      (now : ℕ) (job : Job) (s : System)
      → Moves store s (
          on_router
            (on_rate_limited
              (recover_job store Memory.enqueue Memory.skips (count_metric jobs_recovered) now job))
            s)
  sweeps_fifo :
      (now : ℕ) (job : Job) (s : System)
      → Moves store s (
          on_router
            (on_fifo (λ b. (ok tt, sweep_job store Memory.enqueue Memory.skips now job b)))
            s)
  sweeps_priority :
      (now : ℕ) (job : Job) (s : System)
      → Moves store s (
          on_router
            (on_priority (λ b. (ok tt, sweep_job store Sorted.enqueue Sorted.skips now job b)))
            s)
  sweeps_rate_limited :
      (now : ℕ) (job : Job) (s : System)
      → Moves store s (
          on_router
            (on_rate_limited (λ b. (ok tt, sweep_job store Memory.enqueue Memory.skips now job b)))
            s)
  refills : (s : System) → Moves store s (after_refill s)

-- They keep what the handlers keep.
module _ (R : System → System → Type 0) (k : Kept R) (store : Storage) (c : Contract store)
    (asks : AsksOnce store) where
  pub Moves-Kept : (s t : System) → Moves store s t → R s t
  Moves-Kept s _ (requests reply verb path body id now _) =
      serve-Kept R k store c asks reply (route verb path) body id now s
  Moves-Kept s _ (lists _) = k.routes s _ (Methods.lists-IsCarried store c s.router)
  Moves-Kept s _ (recovers_fifo now job _) =
      k.routes s _ (Methods.recover_fifo_job-IsCarried store c now job s.router)
  Moves-Kept s _ (recovers_priority now job _) =
      k.routes s _ (Methods.recover_priority_job-IsCarried store c now job s.router)
  Moves-Kept s _ (recovers_rate_limited now job _) =
      k.routes s _ (Methods.recover_rate_limited_job-IsCarried store c now job s.router)
  Moves-Kept s _ (sweeps_fifo now job _) =
      k.routes s _ (Methods.sweep_fifo_job-IsCarried store c now job s.router)
  Moves-Kept s _ (sweeps_priority now job _) =
      k.routes s _ (Methods.sweep_priority_job-IsCarried store c now job s.router)
  Moves-Kept s _ (sweeps_rate_limited now job _) =
      k.routes s _ (Methods.sweep_rate_limited_job-IsCarried store c now job s.router)
  Moves-Kept s _ (refills _) = k.routes s _ (refill-Carries s.router)
