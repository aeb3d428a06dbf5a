-- ===== src/Examples/Settings.antt =====
-- The theorems on the settings, the rates and the processor, at a server that hangs up at `RCPT`.
use rjq.Common.{pos, true, some, [], ◌∷◌, ltb}
use rjq.Models.{Job, text}
use rjq.Config.{Config, load_config}
use rjq.Config.Checks.{Loads, load_config-Loads}
use rjq.Email.{EmailProcessor, Conversation, finishes, process}
use rjq.Email.Sending.{Processes, process-Processes}
use rjq.Examples.Fixtures.{job_of, row_a}

abbrev pub settings : Config
settings = record {
  server = record { port = pos 8080 };
  queue = record { workers = pos 4; demo_delay_sec = pos 0; cooldown_sec = pos 1 };
  email = record {
    mode = "test";
    smtp_host = "";
    smtp_port = pos 0;
    smtp_user = "";
    smtp_pass = "";
    test_host = "localhost";
    test_port = pos 1025;
    test_user = "";
    test_pass = "";
  };
  retry = record { max_attempts = pos 3; backoff_seconds = pos 1 };
  timeout = record { job_seconds = pos 30 };
  rate_limit = record { emails_per_minute = pos 0; burst = pos 5 };
  database = record { backend = "sqlite"; sqlite_path = "rjq.db"; postgres_dsn = "" };
}

load_config-Loads_example : Loads true (some settings) (load_config true (some settings))
load_config-Loads_example = load_config-Loads true (some settings)

abbrev pub processor : EmailProcessor
processor = record {
  smtp_host = "localhost";
  smtp_port = pos 1025;
  smtp_user = "rjq";
  smtp_pass = "secret";
  use_auth = true;
}

abbrev pub letter : Job
letter = record (job_of row_a) {
  payload = some (("to", text "a@b") ∷ ("subject", text "hello") ∷ ("body", text "text") ∷ []);
}

abbrev pub conversation : Conversation
conversation = record { server = record { answers = λ n. ltb n 5; offers_tls = true }; said = [] }

process-Processes_example :
    Processes processor letter finishes finishes conversation
      (process processor letter finishes finishes conversation)
process-Processes_example = process-Processes processor letter finishes finishes conversation
