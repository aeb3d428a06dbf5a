-- ===== src/Common/Integers.antt =====
-- A Go `int` that may be negative.
use Prim.Native.Nat.{ℕ}
use mathlib.Core.Bool.{Bool, true, false}

pub data ℤ : Type 0 where
  pos : ℕ → ℤ
  negsuc : ℕ → ℤ

abbrev pub is_zero : ℤ → Bool
is_zero (pos ℕ.zero) = true
is_zero (pos (ℕ.suc n)) = false
is_zero (negsuc n) = false

abbrev pub is_positive : ℤ → Bool
is_positive (pos ℕ.zero) = false
is_positive (pos (ℕ.suc n)) = true
is_positive (negsuc n) = false

abbrev pub succ : ℤ → ℤ
succ (pos n) = pos (ℕ.suc n)
succ (negsuc ℕ.zero) = pos 0
succ (negsuc (ℕ.suc n)) = negsuc n

abbrev pub pred : ℤ → ℤ
pred (pos ℕ.zero) = negsuc 0
pred (pos (ℕ.suc n)) = pos n
pred (negsuc n) = negsuc (ℕ.suc n)
