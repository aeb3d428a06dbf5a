-- ===== src/Common/Monad.antt =====
-- Methods that change an object and may fail: an error leaves the changes made so far in place.
use mathlib.Core.Option.{Option, none, some}

pub data Result {ℓ κ} (E : Type ℓ) (A : Type κ) : Type (ℓ ⊔ κ) where
  ok : A → Result E A
  err : E → Result E A

abbrev pub Method : Type 0 → Type 0 → Type 0 → Type 0
Method S E A = S → Result E A × S

module _ {S E : Type 0} where
  infixl 5 ◌>>=◌ ◌>>◌
  abbrev pub follow : {A B : Type 0} → (A → Method S E B) → Result E A × S → Result E B × S
  follow f (ok a, s) = f a s
  follow f (err e, s) = (err e, s)

  abbrev pub ◌>>=◌ : {A B : Type 0} → Method S E A → (A → Method S E B) → Method S E B
  ◌>>=◌ m f s = follow f (m s)

  abbrev pub ◌>>◌ : {A B : Type 0} → Method S E A → Method S E B → Method S E B
  m >> k = m >>= λ _. k

  abbrev pub return : {A : Type 0} → A → Method S E A
  return a s = (ok a, s)

  abbrev pub throw : {A : Type 0} → E → Method S E A
  throw e s = (err e, s)

  -- A nil pointer is the given error.
  abbrev pub need : {A : Type 0} → E → Option A → Method S E A
  need e none s = (err e, s)
  need e (some a) s = (ok a, s)
