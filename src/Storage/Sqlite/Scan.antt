-- ===== src/Storage/Sqlite/Scan.antt =====
-- internal/storage/sqlite.go: how a job is written to a row and read back.
use rjq.Common.{String, Option, none, some, [], if◌then◌else◌, str_eq}
use rjq.Models.{Payload, Job, Message, empty}
use rjq.Storage.Rows.{Row}
use rjq.Storage.Database.{Driver}

abbrev pub marshal_payload : Driver → Payload → Option String
marshal_payload d none = some "{}"
marshal_payload d (some m) = d.marshal (some m)

abbrev pub unmarshal_payload : Driver → String → Option Payload
unmarshal_payload d data' = if str_eq data' "" then some (some []) else d.unmarshal data'

-- A NULL error message is the empty one.
abbrev pub message_of : Option Message → Message
message_of none = empty
message_of (some m) = m

-- The columns of a row, with the payload read.
abbrev pub to_job : Row → Payload → Job
to_job r p = record {
  id = r.id;
  job_type = r.job_type;
  payload = p;
  queue_type = r.queue_type;
  priority = r.priority;
  status = r.status;
  retry_count = r.retry_count;
  max_retries = r.max_retries;
  created_at = r.created_at;
  updated_at = r.updated_at;
  processed_at = r.processed_at;
  error_message = message_of r.error_message;
}

abbrev pub scan_job : Driver → Row → Option Job
scan_job d r = elim (unmarshal_payload d r.payload) [ none ↦ none | some p ↦ some (to_job r p) ]

-- The columns of the INSERT; the other two are NULL.
abbrev pub new_row : Job → String → Row
new_row job payload_str = record {
  id = job.id;
  job_type = job.job_type;
  payload = payload_str;
  queue_type = job.queue_type;
  priority = job.priority;
  status = job.status;
  retry_count = job.retry_count;
  max_retries = job.max_retries;
  created_at = job.created_at;
  updated_at = job.updated_at;
  processed_at = none;
  error_message = none;
}
