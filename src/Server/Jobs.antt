-- ===== src/Server/Jobs.antt =====
-- internal/worker/pool.go with internal/jobs/email/email_worker.go: `processJob` with the email
-- processor, and what the table says of the letter afterwards.
use rjq.Common.{
  ℕ, ◌+◌, String, true, false, some, List, [], ◌∷◌, ◌++◌, ◌≡◌, refl, sym, ap, ◌∙◌, ◌⊎◌, inl, inr,
  length, get_elem?,
}
use rjq.Common.Monad.{Result, ok, err}
use rjq.Models.{Job}
use rjq.Storage.Rows.{Row}
use rjq.Storage.Interface.{Storage}
use rjq.Storage.Contract.{Contract, Stored}
use rjq.Worker.{Context, Slot, System, Outcome, succeeds, fails, begin_job, finish_job}
use rjq.Worker.Process.{Settles, finish_job-Settles}
use rjq.Email.{
  EmailProcessor, Command, Conversation, Failure, Race, finishes, stops, field, is_missing,
  build_message, process,
}
use rjq.Email.Sending.{
  script, commands, Answered, to_the_end, up_to, Processes, refused, tried, process-Processes,
}

abbrev pub outcome_of : Result Failure (Unit {0}) → Outcome
outcome_of (ok _) = succeeds
outcome_of (err e) = fails

-- `processJob` of worker `id`; `others` is what the other goroutines do while `Process` runs.
unfoldable pub process_job :
    Storage
    → EmailProcessor
    → ℕ
    → Job
    → Race
    → Race
    → (System → System)
    → (began ended : ℕ) → System × Conversation
    → System × Conversation
unfolding begin_job finish_job process
process_job store w id job sending delay others began ended (s, c) =
    let (r, c') = process w job sending delay c in
    (finish_job store id (outcome_of r) job ended (others (begin_job store id job began s)), c')

abbrev pub script_of : EmailProcessor → Job → Conversation → List (String × Command)
script_of w job c = script w c.server (field "to" job.payload) (
    build_message w.smtp_user (field "to" job.payload) (field "subject" job.payload)
      (field "body" job.payload))

-- Why a letter does not count as sent.
pub data Unsent (w : EmailProcessor) (job : Job) (sending delay : Race) (c c' : Conversation)
    : Type 0 where
  nothing_said : is_missing job.payload ≡ true → c' ≡ c → Unsent w job sending delay c c'
  broken_off :
      (pre post : List (String × Command)) (what : String) (d : Command)
      → script_of w job c ≡ pre ++ ((what, d) ∷ post)
      → c'.said ≡ c.said ++ (commands pre ++ (d ∷ []))
      → c.server.answers (length c.said + length pre) ≡ false
      → Unsent w job sending delay c c'
  too_late :
      (x : Context)
      → (sending ≡ stops x) ⊎ (delay ≡ stops x)
      → c'.said ≡ c.said ++ commands (script_of w job c)
      → Unsent w job sending delay c c'

-- What the table says of the job, and what the server has heard.
pub data Handles (w : EmailProcessor) (job : Job) (sending delay : Race) (x : Context) (r row : Row)
    (c c' : Conversation) : Type 0 where
  is_sent :
      Settles succeeds x r row
      → sending ≡ finishes
      → delay ≡ finishes
      → c'.said ≡ c.said ++ commands (script_of w job c)
      → Answered (length (script_of w job c)) c
      → Handles w job sending delay x r row c c'
  is_unsent :
      Settles fails x r row
      → Unsent w job sending delay c c'
      → Handles w job sending delay x r row c c'

not_ok : {e : Failure} → ¬ (◌≡◌ {A = Result Failure (Unit {0})} (err e) (ok tt))
not_ok h = cc

races :
    (sending delay : Race)
    → ((sending ≡ finishes) × (delay ≡ finishes))
      ⊎ ((x : Context) × ((sending ≡ stops x) ⊎ (delay ≡ stops x)))
races finishes finishes = inl (refl, refl)
races finishes (stops x) = inr (x, inr refl)
races (stops x) delay = inr (x, inl refl)

module _ (w : EmailProcessor) (job : Job) (sending delay : Race) (x : Context) (r row : Row)
    (c : Conversation) where
  unsent :
      (e : Failure) (c' : Conversation)
      → Processes w job sending delay c (err e, c')
      → Unsent w job sending delay c c'
  unsent e c' (refused m h) =
      nothing_said m (ap (λ (x : Result Failure (Unit {0}) × Conversation). x.1) h)
  unsent e c' (tried sent m (up_to pre post what d a b f g n) i) = broken_off pre post what d a f n
  unsent e c' (tried sent m (to_the_end b f g) i) = elim (races sending delay) [
    | inl p ↦ absurd (not_ok (i.1 (b, p.0, p.1)))
    | inr p ↦ too_late p.0 p.1 f
  ]

  handled :
      (y : Result Failure (Unit {0})) (c' : Conversation)
      → Processes w job sending delay c (y, c')
      → Settles (outcome_of y) x r row
      → Handles w job sending delay x r row c c'
  handled (err e) c' p h = is_unsent h (unsent e c' p)
  handled (ok _) c' (refused m q) h =
      absurd (not_ok (sym (ap (λ (x : Result Failure (Unit {0}) × Conversation). x.0) q)))
  handled (ok _) c' (tried sent m (to_the_end b f g) i) h = is_sent h (i.0 refl).1 (i.0 refl).2 f g
  handled (ok _) c' (tried sent m (up_to pre post what d a b f g n) i) h =
      absurd (not_ok (sym b ∙ (i.0 refl).0))

module _ (store : Storage) (c : Contract store) where
  -- A job from the start of `processJob` to its end, on a driver that answers, of which the other
  -- goroutines leave the row and the worker's current job: it can still be read from the table, and
  -- it is completed only if the processor said the whole conversation of its letter, every call
  -- succeeded and the context was done neither during the sending nor during the delay. Else it has
  -- used up an attempt, or is pending again because of a preemption, and then it lacked a field and
  -- nothing was said, or the conversation ended with a call that failed, or the context was done
  -- first.
  pub process_job-Handles :
      (w : EmailProcessor) (id : ℕ) (job : Job) (sending delay : Race) (others : System → System)
      (began ended : ℕ) (s : System) (letter : Conversation) (x : Context) (slot : Slot) (r : Row)
      (j : Job)
      → let t = others (begin_job store id job began s) in
        Stored c.scan job.id r j t.router.db
        → get_elem? t.pool.slots id ≡ some slot
        → slot.current ≡ some (job, x)
        → let (s', letter') =
            process_job store w id job sending delay others began ended (s, letter) in
          (row : Row) × (i : Job) × Stored c.scan job.id row i s'.router.db
          × Handles w job sending delay x r row letter letter'
  unfolding process_job
  process_job-Handles w id job sending delay others began ended s letter x slot r j h e run =
      let t = others (begin_job store id job began s) in
      let y = process w job sending delay letter in
      let (settled, _) =
        finish_job-Settles store c id (outcome_of y.0) x job slot ended r j t h e run in
      (
        settled.0,
        settled.1,
        settled.2,
        handled w job sending delay x r settled.0 letter y.0 y.1
            (process-Processes w job sending delay letter) settled.3,
      )
