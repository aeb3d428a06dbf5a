-- ===== src/Models.antt =====
-- pkg/models/job.go: the job record and its constants. An `int` field is a natural number, a time
-- is the number of nanoseconds since an epoch, a nil pointer is `none`, and an identifier is the
-- text that the API generates. A payload value is kept apart only as far as the code looks.
use rjq.Common.{ℕ, String, Bool, true, false, Option, List, str_eq}

-- The `CHECK` of the schema admits these four texts alone.
pub data Status : Type 0 where
  pending processing completed failed : Status

pub Status-discrete : Discrete Status
Status-discrete = hlevel

abbrev pub priority_normal : ℕ
priority_normal = 1

abbrev pub priority_urgent : ℕ
priority_urgent = 2

abbrev pub priority_super_urgent : ℕ
priority_super_urgent = 3

abbrev pub queue_type_fifo : String
queue_type_fifo = "fifo"

abbrev pub queue_type_priority : String
queue_type_priority = "priority"

abbrev pub queue_type_rate_limited : String
queue_type_rate_limited = "rate-limited"

-- A value of the payload: a text, or anything that a type assertion to `string` fails on.
pub data Value : Type 0 where
  text : String → Value
  other : ℕ → Value

-- `map[string]interface{}`; `none` is the nil map.
abbrev pub Payload : Type 0
Payload = Option (List (String × Value))

-- The error messages that the code stores: the empty one, the two formats of the queues, and a
-- text handed in by a caller.
pub data Message : Type 0 where
  empty : Message
  exhausted : (retries : ℕ) → Message
  message : String → Message

pub record Job : Type 0 where
  pub id : String
  pub job_type : String
  pub payload : Payload
  pub queue_type : String
  pub priority : ℕ
  pub status : Status
  pub retry_count : ℕ
  pub max_retries : ℕ
  pub created_at : ℕ
  pub updated_at : ℕ
  pub processed_at : Option ℕ
  pub error_message : Message

-- The tests `job.Status == …`.
abbrev pub is_pending : Status → Bool
is_pending pending = true
is_pending processing = false
is_pending completed = false
is_pending failed = false

abbrev pub is_processing : Status → Bool
is_processing pending = false
is_processing processing = true
is_processing completed = false
is_processing failed = false

abbrev pub is_failed : Status → Bool
is_failed pending = false
is_failed processing = false
is_failed completed = false
is_failed failed = true

-- `job.QueueType == models.QueueTypePriority`
abbrev pub in_priority_queue : Job → Bool
in_priority_queue job = str_eq job.queue_type queue_type_priority
