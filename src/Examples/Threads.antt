-- ===== src/Examples/Threads.antt =====
-- The theorems on the goroutines of the queues, at a channel with room for one job and two senders,
-- and at callers of `Dequeue`.
use rjq.Common.{◌+◌, ◌≤◌, true, [], ◌∷◌, ◌≡◌, refl, arith}
use rjq.Models.{Job}
use rjq.Queue.Memory.Threads.{
  Threads, new_threads, enter, send, begin_close, enters, sends, closes, gives_up, give_up, Steps,
  here, next,
}
use rjq.Queue.Memory.Threads.Shutdown.{Inv, new_threads-Steps-Inv}
use rjq.Queue.Memory.Threads.Ending.{left, Stuck, Ended, closed-Steps-Ended}
use rjq.Queue.Sorted.Waiters.{Waiters, new_waiters, insert_job}
use rjq.Queue.Sorted.Waiters
use rjq.Queue.Sorted.Waiters.Losses.{IsLost, IsNewCall, new_waiters-IsLost}
use rjq.Examples.Fixtures.{job_of, row_a, row_b}

abbrev a : Job
a = job_of row_a

abbrev b : Job
b = job_of row_b

abbrev both_enter : Threads
both_enter = enter b (enter a (new_threads 1 1))

abbrev one_sent : Threads
one_sent = send a (b ∷ []) both_enter

abbrev closing : Threads
closing = begin_close one_sent

abbrev given_up : Threads
given_up = give_up [] closing

two_senders : Steps 2 (new_threads 1 1) both_enter
unfolding new_threads enter
two_senders =
    next 1 _ _ _ (next 0 _ _ _ (here (new_threads 1 1)) (enters a (new_threads 1 1) refl))
      (enters b (enter a (new_threads 1 1)) refl)

closed_while_sending : Steps 4 (new_threads 1 1) closing
unfolding new_threads enter send
closed_while_sending =
    next 3 _ _ _ (next 2 _ _ _ two_senders (sends [] (b ∷ []) a both_enter refl (ground arith)))
      (closes one_sent refl)

new_threads-Steps-Inv_example : Inv closing
new_threads-Steps-Inv_example = new_threads-Steps-Inv 4 1 1 closing closed_while_sending

closing_closed : closing.closed ≡ true
unfolding new_threads enter send begin_close
closing_closed = refl

refuses_last : Steps 1 closing given_up
unfolding new_threads enter send begin_close
refuses_last = next 0 _ _ _ (here closing) (gives_up [] [] b closing refl)

closed-Steps-Ended_example : (1 + left given_up ≤ left closing) × (Stuck given_up → Ended given_up)
closed-Steps-Ended_example =
    closed-Steps-Ended 4 1 1 1 closing given_up closed_while_sending closing_closed refuses_last

-- The caller sleeps, and the job is inserted before its token is sent.
abbrev asleep : Waiters
asleep = record (new_waiters 1) { awake = 0; asleep = 1 }

abbrev inserted : Waiters
inserted = insert_job a asleep

new_waiters-IsLost_example :
    (s : Waiters) × Waiters.Steps (new_waiters 3) s
    × IsLost s
    × ((t : Waiters) → Waiters.Step s t → IsNewCall s t)
new_waiters-IsLost_example = new_waiters-IsLost 1 a b
