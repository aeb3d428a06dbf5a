-- ===== src/Queue/RateLimited/Rates.antt =====
-- The rates at which a rate-limited queue can be made.
use native.Mathlib.Nat.{div-eq_of_lt, le-div_iff_mul-le}
use rjq.Common.{
  ℕ, ◌/◌, ◌≤◌, ◌<◌, false, Option, none, some, ◌≡◌, refl, ◌⊎◌, inl, inr, ◌==◌, ltb, Bool-cases,
  arith,
}
use rjq.Queue.Memory.{new_memory_queue}
use rjq.Queue.RateLimited.{
  RateLimitedQueue, minute, refill_interval, with_interval, new_rate_limited_queue,
}

-- The queue that is made, or the rates for which there is none.
abbrev pub Starts : ℕ → ℕ → ℕ → Option RateLimitedQueue → Type 0
Starts size rate burst none = (rate ≡ 0) ⊎ (minute < rate)
Starts size rate burst (some q) =
    (0 < rate)
    × (rate ≤ minute)
    × (q.tokens ≡ burst)
    × (q.burst ≡ burst)
    × (q.stopped ≡ false)
    × (q.memory ≡ new_memory_queue size)

interval_zero : (rate : ℕ) → 0 < rate → minute / rate ≡ 0 → minute < rate
interval_zero rate h e = elim (Bool-cases (ltb minute rate)) [
  | inl f ↦ ground arith
  | inr f ↦
      let k : rate ≤ minute = ground arith in
      let one : 1 ≤ minute / rate = (le-div_iff_mul-le h).1 (omega arith) in omega (arith, one, e)
]

interval_positive : (rate : ℕ) → 0 < rate → ¬ (minute / rate ≡ 0) → rate ≤ minute
interval_positive rate h e = elim (Bool-cases (ltb minute rate)) [
  | inl f ↦ absurd (e (div-eq_of_lt (ground arith)))
  | inr f ↦ ground arith
]

-- Whether there is an interval for a rate.
Interval : ℕ → Option ℕ → Type 0
Interval rate none = (rate ≡ 0) ⊎ (minute < rate)
Interval rate (some i) = (0 < rate) × (rate ≤ minute)

refill_interval-Interval : (rate : ℕ) → Interval rate (refill_interval rate)
unfolding refill_interval Interval
refill_interval-Interval rate = elim (Bool-cases (rate == 0)) [
  | inl e ↦ rw e (inl (ground arith))
  | inr e ↦ elim (Bool-cases (minute / rate == 0)) [
    | inl f ↦ rw e (rw f (inr (interval_zero rate (ground arith) (ground arith))))
    | inr f ↦ rw e (rw f (ground arith, interval_positive rate (ground arith) (ground arith)))
  ]
]

-- `NewRateLimitedQueue` panics if and only if the rate is 0 or more than one token for each
-- nanosecond of a minute; else it makes an empty open queue whose bucket is full.
pub new_rate_limited_queue-Starts :
    (size rate burst : ℕ) → Starts size rate burst (new_rate_limited_queue size rate burst)
unfolding new_rate_limited_queue Interval
new_rate_limited_queue-Starts size rate burst =
    made (refill_interval rate) (refill_interval-Interval rate)
  where
    made :
        (o : Option ℕ) → Interval rate o → Starts size rate burst (with_interval size rate burst o)
    made none h = h
    made (some i) h = (h.0, h.1, refl, refl, refl, refl)
