-- ===== src/Email.antt =====
-- internal/jobs/email/email_worker.go: the processor of the jobs, and what it says to the server.
pub mod Sending
use Prim.Native.String.{◌++◌ as str_append}
use rjq.Common.{
  ℕ, ℤ, String, Bool, ◌&&◌, ◌||◌, not, none, some, List, [], ◌∷◌, ◌++◌, if◌then◌else◌, length,
  str_eq,
}
use rjq.Common.Monad.{Result, ok, err, Method, ◌>>=◌, ◌>>◌, return}
use rjq.Models.{Value, text, other, Payload, Job}
use rjq.Worker.{Context}

-- The fields that are read here; the timeout is not.
pub record EmailProcessor : Type 0 where
  pub smtp_host : String
  pub smtp_port : ℤ
  pub smtp_user : String
  pub smtp_pass : String
  pub use_auth : Bool

-- The calls of net and net/smtp, in which the server has a say.
pub data Command : Type 0 where
  dial : (host : String) → (port : ℤ) → Command
  new_client start_tls : (host : String) → Command
  login : (user pass host : String) → Command
  mail rcpt write : String → Command
  begin_data close_data quit : Command

-- Third-party code: whether the n-th call succeeds, and whether the client finds the extension
-- STARTTLS. A call that fails has been made.
pub record Server : Type 0 where
  pub answers : ℕ → Bool
  pub offers_tls : Bool

-- The calls made so far, the oldest first.
pub record Conversation : Type 0 where
  pub server : Server
  pub said : List Command

-- What `Process` returns: the missing fields, a failed call by its text, or `ctx.Err()`.
pub data Failure : Type 0 where
  missing_fields : Failure
  failed_call : String → Failure
  stopped_by : Context → Failure

abbrev pub say : Command → Conversation → Conversation
say c s = record s { said = s.said ++ (c ∷ []) }

-- `if err := …; err != nil { return fmt.Errorf("…: %w", err) }`
abbrev pub call : String → Command → Method Conversation Failure (Unit {0})
call what c s =
    if s.server.answers (length s.said) then (ok tt, say c s) else (err (failed_call what), say c s)

abbrev pub upgrade : String → Method Conversation Failure (Unit {0})
upgrade host s =
    if s.server.offers_tls then call "starttls failed" (start_tls host) s else (ok tt, s)

-- `auth`, which is nil without the credentials.
abbrev pub has_auth : EmailProcessor → Bool
has_auth w = w.use_auth && (not (str_eq w.smtp_user "") && not (str_eq w.smtp_pass ""))

abbrev pub authenticate : EmailProcessor → Method Conversation Failure (Unit {0})
authenticate w s =
    if has_auth w
    then call "auth failed" (login w.smtp_user w.smtp_pass w.smtp_host) s
    else (ok tt, s)

abbrev pub sender : EmailProcessor → String
sender w = if str_eq w.smtp_user "" then "rjq@localhost" else w.smtp_user

unfoldable pub send_with_timeout :
    EmailProcessor → String → String → Method Conversation Failure (Unit {0})
send_with_timeout w to msg = do
  call "dial failed" (dial w.smtp_host w.smtp_port)
  call "smtp client failed" (new_client w.smtp_host)
  upgrade w.smtp_host
  authenticate w
  call "mail from failed" (mail (sender w))
  call "rcpt to failed" (rcpt to)
  call "data failed" begin_data
  call "write failed" (write msg)
  call "close failed" close_data
  call "quit failed" quit
  return tt

abbrev pub build_message : String → String → String → String → String
build_message from to subject body = str_append "From: " (
    str_append from (
      str_append "\r\nTo: " (
        str_append to
          (str_append "\r\nSubject: " (str_append subject (str_append "\r\n\r\n" body))))))

-- `job.Payload[key].(string)`, which is empty where the key is missing or holds no text.
abbrev pub value_text : Value → String
value_text (text t) = t
value_text (other n) = ""

abbrev pub field_in : String → List (String × Value) → String
field_in key [] = ""
field_in key ((k, v) ∷ rest) = if str_eq k key then value_text v else field_in key rest

abbrev pub field : String → Payload → String
field key none = ""
field key (some m) = field_in key m

abbrev pub is_missing : Payload → Bool
is_missing p =
    str_eq (field "to" p) "" || (str_eq (field "subject" p) "" || str_eq (field "body" p) "")

-- What a `select` finds first: the channel, or `ctx.Done()` with the error of the context.
pub data Race : Type 0 where
  finishes : Race
  stops : Context → Race

abbrev pub delayed : Race → Conversation → Result Failure (Unit {0}) × Conversation
delayed finishes s = (ok tt, s)
delayed (stops x) s = (err (stopped_by x), s)

-- Where the context is done first, the goroutine that sends runs on to its end.
abbrev pub waited :
    Race
    → Race
    → Result Failure (Unit {0}) × Conversation
    → Result Failure (Unit {0}) × Conversation
waited finishes delay (ok _, s) = delayed delay s
waited finishes delay (err e, s) = (err e, s)
waited (stops x) delay (r, s) = (err (stopped_by x), s)

unfoldable pub process : EmailProcessor → Job → Race → Race → Method Conversation Failure (Unit {0})
unfolding send_with_timeout
process w job sending delay s =
    let to = field "to" job.payload in
    let msg =
      build_message w.smtp_user to (field "subject" job.payload) (field "body" job.payload) in
    if is_missing job.payload
    then (err missing_fields, s)
    else waited sending delay (send_with_timeout w to msg s)
