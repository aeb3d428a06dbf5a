-- ===== src/Queue/Delivery/Safe.antt =====
-- What a method of a queue leaves alone: the jobs of the table and a property of the queue in memory.
use rjq.Common.{String, Bool, true, false, Option, none, some, ◌≡◌, refl, ◌∙◌, if◌then◌else◌}
use rjq.Common.Monad.{Result, ok, err, Method, ◌>>=◌, follow, return, need}
use rjq.Errors.{Error, wrapping, rewrap}
use rjq.Storage.Rows.Laws.{ids}
use rjq.Storage.Database.{Database}
use rjq.Storage.Contract.{Keeps}
use rjq.Queue.Delivery.{Backed, on_db}

module _ {Q : Type 0} (P : Q → Type 0) where
  -- The table holds the same jobs, and the queue in memory still has the property.
  pub record Safe (s s' : Backed Q) : Type 0 where
    pub rows : ids s'.db.rows ≡ ids s.db.rows
    pub queue : P s.queue → P s'.queue

  pub Safe-refl : (s : Backed Q) → Safe s s
  Safe-refl s = record { rows = refl; queue = λ p. p }

  pub Safe-trans : (s t u : Backed Q) → Safe s t → Safe t u → Safe s u
  Safe-trans s t u h k = record { rows = k.rows ∙ h.rows; queue = λ p. k.queue (h.queue p) }

  abbrev pub IsSafe : {A : Type 0} → Method (Backed Q) Error A → Type 0
  IsSafe m = (s : Backed Q) → Safe s (m s).1

  pub bind-IsSafe :
      {A B : Type 0} (m : Method (Backed Q) Error A) (f : A → Method (Backed Q) Error B)
      → IsSafe m
      → ((a : A) → IsSafe (f a))
      → IsSafe (m >>= f)
  bind-IsSafe {A} {B} m f h k s = go (m s) (h s)
    where
      go : (x : Result Error A × Backed Q) → Safe s x.1 → Safe s (follow f x).1
      go (ok a, t) p = Safe-trans s t _ p (k a t)
      go (err e, t) p = p

  pub return-IsSafe : {A : Type 0} (a : A) → IsSafe (return a)
  return-IsSafe a s = Safe-refl s

  pub need-IsSafe : {A : Type 0} (e : Error) (o : Option A) → IsSafe (need e o)
  need-IsSafe e none s = Safe-refl s
  need-IsSafe e (some a) s = Safe-refl s

  pub wrapping-IsSafe :
      {A : Type 0} (t : String) (m : Method (Backed Q) Error A) → IsSafe m → IsSafe (wrapping t m)
  wrapping-IsSafe {A} t m h s = go (m s) (h s)
    where
      go : (x : Result Error A × Backed Q) → Safe s x.1 → Safe s (rewrap t x).1
      go (ok a, u) p = p
      go (err e, u) p = p

  pub on_db-IsSafe : {A : Type 0} (m : Method Database Error A) → Keeps m → IsSafe (on_db m)
  on_db-IsSafe m k s = record { rows = (k s.db).0; queue = λ p. p }

  pub if-IsSafe :
      {A : Type 0} (b : Bool) (m n : Method (Backed Q) Error A)
      → IsSafe m
      → IsSafe n
      → IsSafe (if b then m else n)
  if-IsSafe true m n h k = h
  if-IsSafe false m n h k = k
