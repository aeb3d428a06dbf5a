-- ===== src/Config.antt =====
-- internal/config/config.go: the settings, and `LoadConfig` after the YAML library.
pub mod Checks
use rjq.Common.{
  ℤ, is_zero, is_positive, String, Bool, true, false, Option, none, some, if◌then◌else◌,
}
use rjq.Common.Monad.{Result, ok, err}
use rjq.Errors.{Error, viper, text, wrap}

pub record DatabaseConfig : Type 0 where
  pub backend : String
  pub sqlite_path : String
  pub postgres_dsn : String

pub record ServerConfig : Type 0 where
  pub port : ℤ

pub record QueueConfig : Type 0 where
  pub workers : ℤ
  pub demo_delay_sec : ℤ
  pub cooldown_sec : ℤ

pub record EmailConfig : Type 0 where
  pub mode : String
  pub smtp_host : String
  pub smtp_port : ℤ
  pub smtp_user : String
  pub smtp_pass : String
  pub test_host : String
  pub test_port : ℤ
  pub test_user : String
  pub test_pass : String

pub record RetryConfig : Type 0 where
  pub max_attempts : ℤ
  pub backoff_seconds : ℤ

pub record TimeoutConfig : Type 0 where
  pub job_seconds : ℤ

pub record RateLimitConfig : Type 0 where
  pub emails_per_minute : ℤ
  pub burst : ℤ

pub record Config : Type 0 where
  pub server : ServerConfig
  pub queue : QueueConfig
  pub email : EmailConfig
  pub retry : RetryConfig
  pub timeout : TimeoutConfig
  pub rate_limit : RateLimitConfig
  pub database : DatabaseConfig

-- The checks at the end of `LoadConfig`.
abbrev pub validate : Config → Result Error Config
validate cfg =
    if is_zero cfg.server.port
    then err (text "server.port must be set")
    else if is_positive cfg.queue.workers
    then ok cfg
    else err (text "queue.workers must be positive")

-- What viper answers: whether the file was read, and what the file and the environment decode to.
unfoldable pub load_config : Bool → Option Config → Result Error Config
load_config false decoded = err (wrap "failed to read config file" viper)
load_config true none = err (wrap "failed to unmarshal config" viper)
load_config true (some cfg) = validate cfg
