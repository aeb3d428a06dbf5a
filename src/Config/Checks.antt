-- ===== src/Config/Checks.antt =====
-- Which settings `LoadConfig` lets pass.
use rjq.Common.{
  ℤ, pos, is_zero, is_positive, ℕ, suc, Bool, true, false, Option, none, some, ◌≡◌, refl, inl, inr,
  Bool-cases, arith,
}
use rjq.Common.Monad.{Result, ok, err}
use rjq.Errors.{Error}
use rjq.Config.{Config, validate, load_config}

-- The number is a positive one.
abbrev pub Positive : ℤ → Type 0
Positive z = (n : ℕ) × (z ≡ pos (suc n))

-- The settings that the server can start with, as far as they are checked.
abbrev pub Usable : Config → Type 0
Usable cfg = ¬ (cfg.server.port ≡ pos 0) × Positive cfg.queue.workers

-- The two outcomes of `LoadConfig`.
abbrev pub Loads : Bool → Option Config → Result Error Config → Type 0
Loads read decoded (ok cfg) = (read ≡ true) × (decoded ≡ some cfg) × Usable cfg
Loads read decoded (err e) = ¬ ((cfg : Config) × (read ≡ true) × (decoded ≡ some cfg) × Usable cfg)

is_zero-true : (z : ℤ) → is_zero z ≡ true → z ≡ pos 0
is_zero-true z h = ground arith

is_zero-false : (z : ℤ) → is_zero z ≡ false → ¬ (z ≡ pos 0)
is_zero-false z h = ground arith

is_positive-true : (z : ℤ) → is_positive z ≡ true → Positive z
is_positive-true z h = ground arith

is_positive-false : (z : ℤ) → is_positive z ≡ false → ¬ Positive z
is_positive-false z h = ground arith

validate-Loads : (cfg : Config) → Loads true (some cfg) (validate cfg)
validate-Loads cfg = elim (Bool-cases (is_zero cfg.server.port)) [
  | inl e ↦ simp e (λ u. u.3.0 (is_zero-true u.0.server.port (ground arith)))
  | inr e ↦ elim (Bool-cases (is_positive cfg.queue.workers)) [
    | inl f ↦
        simp (e, f)
          (refl, refl, (is_zero-false cfg.server.port e, is_positive-true cfg.queue.workers f))
    | inr f ↦ simp (e, f) (λ u. is_positive-false u.0.queue.workers (ground arith) u.3.1)
  ]
]

-- `LoadConfig` returns the settings that were decoded if and only if the file was read and decoded
-- and they have a port other than 0 and a positive number of workers; else it returns an error.
pub load_config-Loads :
    (read : Bool) (decoded : Option Config) → Loads read decoded (load_config read decoded)
unfolding load_config
load_config-Loads false decoded = λ u. cc (u.1)
load_config-Loads true none = λ u. cc (u.2)
load_config-Loads true (some cfg) = validate-Loads cfg
