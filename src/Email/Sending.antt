-- ===== src/Email/Sending.antt =====
-- What the processor says to a server, whatever the server answers, and what `Process` reports.
use mathlib.Core.List.{append_assoc, append-nil}
use rjq.Common.{
  ℕ, zero, suc, ◌+◌, ◌<◌, String, Bool, true, false, List, [], ◌∷◌, ◌++◌, ◌≡◌, refl, sym, ap, ◌∙◌,
  ◌↔◌, inl, inr, length, length-append, arith, Bool-cases,
}
use rjq.Common.Monad.{Result, ok, err, Method, ◌>>◌, return}
use rjq.Models.{Job}
use rjq.Email.{
  EmailProcessor, Command, dial, new_client, start_tls, login, mail, rcpt, begin_data, write,
  close_data, quit, Server, Conversation, Failure, failed_call, missing_fields, say, call, has_auth,
  sender, upgrade, authenticate, send_with_timeout, build_message, field, is_missing, Race,
  finishes, stops, waited, process,
}

-- The whole conversation: each call with the text of its error.
abbrev pub upgrade_script : Bool → EmailProcessor → List (String × Command)
upgrade_script true w = ("starttls failed", start_tls w.smtp_host) ∷ []
upgrade_script false w = []

abbrev pub login_script : Bool → EmailProcessor → List (String × Command)
login_script true w = ("auth failed", login w.smtp_user w.smtp_pass w.smtp_host) ∷ []
login_script false w = []

abbrev pub mail_script : EmailProcessor → String → String → List (String × Command)
mail_script w to msg =
    ("mail from failed", mail (sender w))
    ∷ ("rcpt to failed", rcpt to)
    ∷ ("data failed", begin_data)
    ∷ ("write failed", write msg)
    ∷ ("close failed", close_data)
    ∷ ("quit failed", quit)
    ∷ []

abbrev pub script : EmailProcessor → Server → String → String → List (String × Command)
script w server to msg =
    ("dial failed", dial w.smtp_host w.smtp_port)
      ∷ ("smtp client failed", new_client w.smtp_host)
      ∷ upgrade_script server.offers_tls w
    ++ (login_script (has_auth w) w ++ mail_script w to msg)

-- The calls of a script up to the first that fails.
pub follow_script : List (String × Command) → Method Conversation Failure (Unit {0})
follow_script [] = return tt
follow_script ((what, c) ∷ rest) = call what c >> follow_script rest

after :
    (what : String) (c : Command) (k l : Method Conversation Failure (Unit {0})) (s : Conversation)
    → k (say c s) ≡ l (say c s)
    → (call what c >> k) s ≡ (call what c >> l) s
after what c k l s e = elim (Bool-cases (s.server.answers (length s.said))) [
  | inl b ↦ simp (b, e) refl
  | inr b ↦ simp b refl
]

abbrev say_mail : EmailProcessor → String → String → Method Conversation Failure (Unit {0})
say_mail w to msg = do
  call "mail from failed" (mail (sender w))
  call "rcpt to failed" (rcpt to)
  call "data failed" begin_data
  call "write failed" (write msg)
  call "close failed" close_data
  call "quit failed" quit
  return tt

authenticate-script :
    (w : EmailProcessor) (to msg : String) (s : Conversation)
    → (authenticate w >> say_mail w to msg) s
      ≡ follow_script (login_script (has_auth w) w ++ mail_script w to msg) s
unfolding follow_script
authenticate-script w to msg s = elim (Bool-cases (has_auth w)) [
  | inl b ↦ rw b refl
  | inr b ↦ rw b refl
]

upgrade-script :
    (w : EmailProcessor) (to msg : String) (s : Conversation)
    → (upgrade w.smtp_host >> (authenticate w >> say_mail w to msg)) s
      ≡ follow_script
          (upgrade_script s.server.offers_tls w
            ++ (login_script (has_auth w) w ++ mail_script w to msg))
          s
unfolding follow_script
upgrade-script w to msg s = elim (Bool-cases s.server.offers_tls) [
  | inl b ↦ simp b (
      after "starttls failed" (start_tls w.smtp_host) (authenticate w >> say_mail w to msg)
        (follow_script (login_script (has_auth w) w ++ mail_script w to msg)) s
        (authenticate-script w to msg (say (start_tls w.smtp_host) s)))
  | inr b ↦ simp b (authenticate-script w to msg s)
]

send-follow_script :
    (w : EmailProcessor) (to msg : String) (s : Conversation)
    → send_with_timeout w to msg s ≡ follow_script (script w s.server to msg) s
unfolding send_with_timeout follow_script
send-follow_script w to msg s =
    let t = say (dial w.smtp_host w.smtp_port) s in
    let u = say (new_client w.smtp_host) t in
    after "dial failed" (dial w.smtp_host w.smtp_port) _ _ s
      (after "smtp client failed" (new_client w.smtp_host) _ _ t (upgrade-script w to msg u))

-- The first `n` calls from now on succeed.
abbrev pub Answered : ℕ → Conversation → Type 0
Answered n s = (i : ℕ) → i < n → s.server.answers (length s.said + i) ≡ true

abbrev pub commands : List (String × Command) → List Command
commands [] = []
commands ((what, c) ∷ rest) = c ∷ commands rest

-- A script that was followed to its end, or up to and including its first failing call.
pub data Follows (s : Conversation) (calls : List (String × Command))
    (x : Result Failure (Unit {0}) × Conversation) : Type 0 where
  to_the_end :
      x.0 ≡ ok tt
      → x.1.said ≡ s.said ++ commands calls
      → Answered (length calls) s
      → Follows s calls x
  up_to :
      (pre post : List (String × Command)) (what : String) (c : Command)
      → calls ≡ pre ++ ((what, c) ∷ post)
      → x.0 ≡ err (failed_call what)
      → x.1.said ≡ s.said ++ (commands pre ++ (c ∷ []))
      → Answered (length pre) s
      → s.server.answers (length s.said + length pre) ≡ false
      → Follows s calls x

Answered-next :
    (n : ℕ) (c : Command) (s : Conversation)
    → s.server.answers (length s.said) ≡ true
    → Answered n (say c s)
    → Answered (suc n) s
Answered-next n c s b h zero lt = ap s.server.answers (omega arith) ∙ b
Answered-next n c s b h (suc i) lt =
    ap s.server.answers (omega (arith, length-append s.said (c ∷ []))) ∙ h i (omega arith)

Follows-cons :
    (what : String) (c : Command) (rest : List (String × Command)) (s : Conversation)
    (x : Result Failure (Unit {0}) × Conversation)
    → s.server.answers (length s.said) ≡ true
    → Follows (say c s) rest x
    → Follows s ((what, c) ∷ rest) x
Follows-cons what c rest s x b (to_the_end r e a) =
    to_the_end r (e ∙ append_assoc s.said (c ∷ []) (commands rest))
      (Answered-next (length rest) c s b a)
Follows-cons what c rest s x b (up_to pre post w d e r f a n) =
    up_to ((what, c) ∷ pre) post w d (ap (◌∷◌ (what, c)) e) r
      (f ∙ append_assoc s.said (c ∷ []) (commands pre ++ (d ∷ [])))
      (Answered-next (length pre) c s b a)
      (ap s.server.answers (omega (arith, length-append s.said (c ∷ []))) ∙ n)

follow_script-Follows :
    (calls : List (String × Command)) (s : Conversation) → Follows s calls (follow_script calls s)
unfolding follow_script
follow_script-Follows [] s =
    to_the_end refl (sym (append-nil s.said)) (λ i lt. absurd (omega arith))
follow_script-Follows ((what, c) ∷ rest) s = elim (Bool-cases (s.server.answers (length s.said))) [
  | inl b ↦ rw b (Follows-cons what c rest s _ b (follow_script-Follows rest (say c s)))
  | inr b ↦ rw b (
      up_to [] rest what c refl refl refl (λ i lt. absurd (omega arith))
        (ap s.server.answers (omega arith) ∙ b))
]

-- The outcome of `Process` for a job with these races, after the sending `sent`.
pub data Processes (w : EmailProcessor) (job : Job) (sending delay : Race) (s : Conversation)
    (x : Result Failure (Unit {0}) × Conversation) : Type 0 where
  refused :
      is_missing job.payload ≡ true
      → x ≡ (err missing_fields, s)
      → Processes w job sending delay s x
  tried :
      (sent : Result Failure (Unit {0}))
      → is_missing job.payload ≡ false
      → Follows s
          (script w s.server (field "to" job.payload) (
            build_message w.smtp_user
              (field "to" job.payload)
              (field "subject" job.payload)
              (field "body" job.payload)))
          (sent, x.1)
      → ((x.0 ≡ ok tt) ↔ ((sent ≡ ok tt) × (sending ≡ finishes) × (delay ≡ finishes)))
      → Processes w job sending delay s x

waited-ok :
    (sending delay : Race) (sent : Result Failure (Unit {0})) (s : Conversation)
    → let x = waited sending delay (sent, s) in
      (x.1 ≡ s) × ((x.0 ≡ ok tt) ↔ ((sent ≡ ok tt) × (sending ≡ finishes) × (delay ≡ finishes)))
waited-ok finishes finishes (ok _) s = ground arith
waited-ok finishes (stops x) (ok _) s = ground arith
waited-ok finishes delay (err e) s = ground arith
waited-ok (stops x) delay sent s = ground arith

-- `Process`, whatever the server answers and whatever the context does. A job without its three
-- fields is refused, and nothing is said. Otherwise the calls of the script are made in their order,
-- up to the first that fails, whose error is that of the sending, or to the end. `Process` returns
-- no error if and only if all of them succeeded and the context was done neither during the sending
-- nor during the delay after it.
pub process-Processes :
    (w : EmailProcessor) (job : Job) (sending delay : Race) (s : Conversation)
    → Processes w job sending delay s (process w job sending delay s)
unfolding process
process-Processes w job sending delay s = elim (Bool-cases (is_missing job.payload)) [
  | inl b ↦ rw b (refused b refl)
  | inr b ↦
      let to = field "to" job.payload in
      let msg =
        build_message w.smtp_user to (field "subject" job.payload) (field "body" job.payload) in
      rw b (
        sent-Processes (send_with_timeout w to msg s) b
          (rw (send-follow_script w to msg s) (follow_script-Follows (script w s.server to msg) s)))
]
  where
    sent-Processes :
        (y : Result Failure (Unit {0}) × Conversation)
        → is_missing job.payload ≡ false
        → Follows s
            (script w s.server (field "to" job.payload) (
              build_message w.smtp_user
                (field "to" job.payload)
                (field "subject" job.payload)
                (field "body" job.payload)))
            y
        → Processes w job sending delay s (waited sending delay y)
    sent-Processes (r, t) b h = let (e, k) = waited-ok sending delay r t in tried r b (rw e h) k
