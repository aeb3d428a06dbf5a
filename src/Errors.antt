-- ===== src/Errors.antt =====
-- The errors of the program: those of the driver, encoding/json and viper, which are opaque, the texts
-- of `fmt.Errorf`, with or without an identifier, and an error wrapped by `%w`. And the counters of
-- internal/metrics/metrics.go, each with its label.
use rjq.Common.{String}
use rjq.Common.Monad.{Result, Method, ok, err}

pub data Error : Type 0 where
  driver json viper : Error
  text : String → Error
  about : String → (id : String) → Error
  wrap : String → Error → Error

-- `if err != nil { return fmt.Errorf("…: %w", err) }`
abbrev pub rewrap : {S A : Type 0} → String → Result Error A × S → Result Error A × S
rewrap t (ok a, s) = (ok a, s)
rewrap t (err e, s) = (err (wrap t e), s)

abbrev pub wrapping : {S A : Type 0} → String → Method S Error A → Method S Error A
wrapping t m s = rewrap t (m s)

-- One increment of a counter.
pub data Metric : Type 0 where
  jobs_submitted jobs_completed jobs_failed jobs_retried jobs_preempted : (queue : String) → Metric
  jobs_recovered : Metric
