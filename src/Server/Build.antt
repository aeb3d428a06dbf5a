-- ===== src/Server/Build.antt =====
-- The queues, the router and the pool that `main` makes from its settings.
use rjq.Common.{
  ℤ, pos, negsuc, ℕ, zero, suc, ◌*◌, ◌≤◌, ◌<◌, Option, none, some, ◌≡◌, refl, sym, ap, ◌∙◌, subst,
  ◌⊎◌, inl, inr, str_eq, length, replicate, Bool-cases, arith,
}
use rjq.Config.{Config}
use rjq.Storage.Database.{Database}
use rjq.Storage.Contract.{Contract}
use rjq.Storage.Contract.Sqlite.{sqlite_contract}
use rjq.Storage.Contract.Postgres.{postgres_contract}
use rjq.Queue.RateLimited.{RateLimitedQueue, minute}
use rjq.Queue.RateLimited.Rates
use rjq.Queue.RateLimited.Rates.{new_rate_limited_queue-Starts}
use rjq.Api.Routes.Reading.{AsksOnce}
use rjq.Api.Routes.Asking.{sqlite_asks, postgres_asks}
use rjq.Worker.{System, Slot, idle, start}
use rjq.Server.{backend, size_of, rate_of, burst_of, count_of, rate_limited, system_of, new_system}
use rjq.Server.Invariant.{Sound}

pub backend_contract : (cfg : Config) → Contract (backend cfg)
unfolding backend
backend_contract cfg = elim (Bool-cases (str_eq cfg.database.backend "postgres")) [
  | inl e ↦ rw e postgres_contract
  | inr e ↦ rw e sqlite_contract
]

pub backend_asks : (cfg : Config) → AsksOnce (backend cfg)
unfolding backend
backend_asks cfg = elim (Bool-cases (str_eq cfg.database.backend "postgres")) [
  | inl e ↦ rw e postgres_asks
  | inr e ↦ rw e sqlite_asks
]

-- A rate for which there is a ticker.
abbrev pub InRange : ℤ → Type 0
InRange z = (n : ℕ) × (z ≡ pos n) × (0 < n) × (n ≤ minute)

pos_injective : {m n : ℕ} → pos m ≡ pos n → m ≡ n
pos_injective h = cc

negative_rate : (k n : ℕ) → ¬ (negsuc k ≡ pos n)
negative_rate k n h = cc

zero_least : (n : ℕ) → 0 ≤ n
zero_least n = omega arith

length-replicate : (n : ℕ) (x : Slot) → length (replicate n x) ≡ n
length-replicate zero x = refl
length-replicate (suc n) x = ap suc (length-replicate n x)

-- What is made for a positive number of workers.
unfoldable pub Built : Config → Database → Option System → Type 0
Built cfg db none = ¬ InRange cfg.rate_limit.emails_per_minute
Built cfg db (some s) =
    InRange cfg.rate_limit.emails_per_minute
    × Sound s
    × (s.router.db ≡ db)
    × (s.pool ≡ start (count_of cfg.queue.workers))

module _ (cfg : Config) (db : Database) (n : ℕ) (workers : cfg.queue.workers ≡ pos (suc n)) where
  out_of_range :
      (rate size : ℕ)
      → cfg.rate_limit.emails_per_minute ≡ pos rate
      → Rates.Starts size rate (burst_of cfg.rate_limit.burst) none
      → ¬ InRange cfg.rate_limit.emails_per_minute
  out_of_range rate size e h r = absurd_rate r.0 (pos_injective (sym e ∙ r.1)) h r.2 r.3
    where
      absurd_rate : (m : ℕ) → rate ≡ m → (rate ≡ 0) ⊎ (minute < rate) → 0 < m → m ≤ minute → ⊥
      absurd_rate m f (inl z) a b = omega arith
      absurd_rate m f (inr z) a b = omega arith

  made :
      (rate size : ℕ) (o : Option RateLimitedQueue)
      → cfg.rate_limit.emails_per_minute ≡ pos rate
      → Rates.Starts size rate (burst_of cfg.rate_limit.burst) o
      → Built cfg db (system_of cfg db (some size) o)
  unfolding Built
  made rate size none e h = out_of_range rate size e h
  made rate size (some q) e h = (
    (rate, e, h.0, h.1),
    record {
      queues = record {
        fifo_fits = zero_least size;
        sorted = tt;
        rate_limited_fits = rw (h.5) (zero_least size);
        within_burst = rw (h.2, h.3) (omega arith);
      };
      slots = length-replicate (count_of cfg.queue.workers) idle;
    },
    refl,
    refl,
  )

  rated :
      (z : ℤ) (size : ℕ)
      → cfg.rate_limit.emails_per_minute ≡ z
      → Built cfg db (
          system_of cfg db
            (some size)
            (rate_limited (some size) (rate_of z) (burst_of cfg.rate_limit.burst)))
  unfolding Built
  rated (pos rate) size e =
      made rate size _ e (new_rate_limited_queue-Starts size rate (burst_of cfg.rate_limit.burst))
  rated (negsuc k) size e = λ r. negative_rate k r.0 (sym e ∙ r.1)

  pub new_system-Built : Built cfg db (new_system cfg db)
  unfolding new_system
  new_system-Built =
      subst
        (λ o. Built cfg db (
          system_of cfg db o (
            rate_limited o (rate_of cfg.rate_limit.emails_per_minute)
              (burst_of cfg.rate_limit.burst))))
        (sym (ap size_of workers)) (rated cfg.rate_limit.emails_per_minute (suc n * 10) refl)
