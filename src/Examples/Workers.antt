-- ===== src/Examples/Workers.antt =====
-- The theorems on the workers and on the API, at two workers of which one runs a normal job.
use rjq.Common.{pos, none, some, [], ◌∷◌, ◌≡◌, refl, get_elem?}
use rjq.Models.{Job, pending}
use rjq.Storage.Rows.{Row}
use rjq.Storage.Sqlite.{sqlite}
use rjq.Storage.Sqlite.Scan.{scan_job}
use rjq.Storage.Contract.{Stored}
use rjq.Storage.Contract.Sqlite.{sqlite_contract}
use rjq.Worker
use rjq.Worker.{live, idle, fails, preempt, finish_job}
use rjq.Worker.Preempt.{Outcome, preempt-Outcome}
use rjq.Worker.Process.{Settles, finish_job-Settles}
use rjq.Api.{Request, new_job, create_job, retry_job}
use rjq.Api.Retry.{Retried, retry_job-Retried}
use rjq.Api.Create.{Created, create_job-Created}
use rjq.Examples.Fixtures.{row_of, job_of, row_a, row_c, a-Stored, c-Stored, system}

abbrev super_urgent : Job
super_urgent = job_of (row_of "d" 3 pending 0 40)

preempt-Outcome_example : Outcome super_urgent system (preempt super_urgent system)
preempt-Outcome_example = preempt-Outcome super_urgent system

-- The second worker is the one that is preempted.
preempt_second :
    (preempt super_urgent system).1.pool.slots
    ≡ idle
      ∷ record { current = some (job_of row_a, Worker.cancelled); preempt = some super_urgent }
      ∷ []
unfolding preempt
preempt_second = refl

finish_job-Settles_example :
    let s' = finish_job sqlite 1 fails (job_of row_a) 50 system in
    ((row : Row) × (i : Job) × Stored scan_job "a" row i s'.router.db
      × Settles fails live row_a row)
    × (get_elem? s'.pool.slots 1 ≡ some (record idle { current = none }))
finish_job-Settles_example =
    finish_job-Settles sqlite sqlite_contract 1 fails live (job_of row_a)
      (record { current = some (job_of row_a, live); preempt = none }) 50 row_a (job_of row_a)
      system a-Stored refl refl

abbrev pub request : Request
request = record { job_type = "email"; payload = none; queue = "priority"; priority = pos 3 }

create_job-Created_example :
    let (resp, s') = create_job sqlite (some request) "d" 40 system in
    Created (new_job request "d" 40) system resp s'
create_job-Created_example = create_job-Created sqlite sqlite_contract request "d" 40 system refl

retry_job-Retried_example :
    let (resp, s') = retry_job sqlite "c" 50 system in Retried "c" row_c system resp.code s'
retry_job-Retried_example =
    retry_job-Retried sqlite sqlite_contract "c" 50 row_c (job_of row_c) system c-Stored
