-- ===== src/Queue/Router/Sound/Methods.antt =====
-- The router's methods that touch the storage keep the queues sound and every row.
use rjq.Common.{ℕ, String, refl}
use rjq.Common.Monad.{ok, return}
use rjq.Models.{Job}
use rjq.Errors.{wrapping, jobs_recovered}
use rjq.Storage.Database.{count_metric}
use rjq.Storage.Interface.{Storage}
use rjq.Storage.Contract.{Contract}
use rjq.Queue.Delivery.{on_db, recover_job, sweep_job}
use rjq.Queue.Delivery.Keeps.{AllSafe, all_safe}
use rjq.Queue.Memory
use rjq.Queue.Sorted
use rjq.Queue.Router.{Router, on_fifo, on_priority, on_rate_limited}
use rjq.Queue.Router
use rjq.Queue.Router.Sound.{
  Fits, SortedJobs, enqueue-Fits, enqueue-SortedJobs, IsCarried, on_fifo-Carries,
  on_priority-Carries, on_rate_limited-Carries, bind-IsCarried, wrapping-IsCarried,
}

module _ (store : Storage) (c : Contract store) where
  fifo_safe : AllSafe Fits store c Memory.enqueue enqueue-Fits
  fifo_safe = all_safe Fits store c Memory.enqueue enqueue-Fits

  sorted_safe : AllSafe SortedJobs store c Sorted.enqueue enqueue-SortedJobs
  sorted_safe = all_safe SortedJobs store c Sorted.enqueue enqueue-SortedJobs

  pub ack-IsCarried : (id : String) (now : ℕ) → IsCarried (Router.ack store id now)
  unfolding Router.ack
  ack-IsCarried id now = on_fifo-Carries (Memory.ack store id now) (fifo_safe.ack_safe id now)

  pub nack-IsCarried : (id : String) (now : ℕ) → IsCarried (Router.nack store id now)
  unfolding Router.nack
  nack-IsCarried id now = on_fifo-Carries (Memory.nack store id now) (fifo_safe.nack_safe id now)

  pub set_processing-IsCarried :
      (id : String) (now : ℕ) → IsCarried (Router.set_processing store id now)
  unfolding Router.set_processing
  set_processing-IsCarried id now =
      on_fifo-Carries (Memory.set_processing store id now) (fifo_safe.set_processing_safe id now)

  pub requeue-IsCarried : (id : String) (now : ℕ) → IsCarried (Router.requeue store id now)
  unfolding Router.requeue
  requeue-IsCarried id now =
      on_fifo-Carries (Memory.requeue store id now) (fifo_safe.requeue_safe id now)

  pub retry-IsCarried : (id : String) (extra now : ℕ) → IsCarried (Router.retry store id extra now)
  unfolding Router.retry
  retry-IsCarried id extra now =
      on_fifo-Carries (Memory.retry store id extra now) (fifo_safe.retry_safe id extra now)

  -- The recovery of one MemoryQueue, which counts, and of the SortedQueue, which does not.
  pub recover-IsCarried : (now : ℕ) → IsCarried (Router.recover store now)
  unfolding Router.recover
  recover-IsCarried now =
      let fifo =
        fifo_safe.recover_safe Memory.skips (count_metric jobs_recovered) (λ db. (refl, refl))
          now in
      let sorted = sorted_safe.recover_safe Sorted.skips (return tt) (λ db. (refl, refl)) now in
      bind-IsCarried (wrapping "fifo recover" (on_fifo (Memory.recover store now))) _
        (wrapping-IsCarried "fifo recover" (on_fifo (Memory.recover store now))
          (on_fifo-Carries (Memory.recover store now) fifo))
        λ _.
          bind-IsCarried (wrapping "priority recover" (on_priority (Sorted.recover store now))) _
            (wrapping-IsCarried "priority recover" (on_priority (Sorted.recover store now))
              (on_priority-Carries (Sorted.recover store now) sorted))
            λ _.
              wrapping-IsCarried "rate-limited recover" (on_rate_limited (Memory.recover store now))
                (on_rate_limited-Carries (Memory.recover store now) fifo)

  -- One job of a pass of the sweeper of each queue.
  pub sweep_fifo_job-IsCarried :
      (now : ℕ) (job : Job)
      → IsCarried (on_fifo (λ s. (ok tt, sweep_job store Memory.enqueue Memory.skips now job s)))
  sweep_fifo_job-IsCarried now job =
      on_fifo-Carries (λ s. (ok tt, sweep_job store Memory.enqueue Memory.skips now job s))
        (fifo_safe.sweep_job_safe Memory.skips now job)

  pub sweep_priority_job-IsCarried :
      (now : ℕ) (job : Job)
      → IsCarried
          (on_priority (λ s. (ok tt, sweep_job store Sorted.enqueue Sorted.skips now job s)))
  sweep_priority_job-IsCarried now job =
      on_priority-Carries (λ s. (ok tt, sweep_job store Sorted.enqueue Sorted.skips now job s))
        (sorted_safe.sweep_job_safe Sorted.skips now job)

  pub sweep_rate_limited_job-IsCarried :
      (now : ℕ) (job : Job)
      → IsCarried
          (on_rate_limited (λ s. (ok tt, sweep_job store Memory.enqueue Memory.skips now job s)))
  sweep_rate_limited_job-IsCarried now job =
      on_rate_limited-Carries (λ s. (ok tt, sweep_job store Memory.enqueue Memory.skips now job s))
        (fifo_safe.sweep_job_safe Memory.skips now job)

  -- The list that the recovery or the sweeper of a queue reads.
  pub lists-IsCarried : IsCarried (on_fifo (on_db store.list_pending_jobs))
  lists-IsCarried = on_fifo-Carries (on_db store.list_pending_jobs) fifo_safe.lists_safe

  -- One job of the recovery of each queue.
  pub recover_fifo_job-IsCarried :
      (now : ℕ) (job : Job)
      → IsCarried (
          on_fifo
            (recover_job store Memory.enqueue Memory.skips (count_metric jobs_recovered) now job))
  recover_fifo_job-IsCarried now job =
      on_fifo-Carries
        (recover_job store Memory.enqueue Memory.skips (count_metric jobs_recovered) now job)
        (fifo_safe.recover_job_safe Memory.skips (count_metric jobs_recovered) (λ db. (refl, refl))
          now job)

  pub recover_priority_job-IsCarried :
      (now : ℕ) (job : Job)
      → IsCarried (on_priority (recover_job store Sorted.enqueue Sorted.skips (return tt) now job))
  recover_priority_job-IsCarried now job =
      on_priority-Carries (recover_job store Sorted.enqueue Sorted.skips (return tt) now job)
        (sorted_safe.recover_job_safe Sorted.skips (return tt) (λ db. (refl, refl)) now job)

  pub recover_rate_limited_job-IsCarried :
      (now : ℕ) (job : Job)
      → IsCarried (
          on_rate_limited
            (recover_job store Memory.enqueue Memory.skips (count_metric jobs_recovered) now job))
  recover_rate_limited_job-IsCarried now job =
      on_rate_limited-Carries
        (recover_job store Memory.enqueue Memory.skips (count_metric jobs_recovered) now job)
        (fifo_safe.recover_job_safe Memory.skips (count_metric jobs_recovered) (λ db. (refl, refl))
          now job)
