-- ===== src/Server/Goroutines/Phases.antt =====
-- Lists of phases, and what a phase says of the worker's slot, of the gauge and of its goroutine.
use rjq.Common.{
  ℕ, zero, suc, ◌+◌, true, Option, none, some, List, [], ◌∷◌, ◌≡◌, refl, sym, ap, ◌∙◌, map,
  if◌then◌else◌, ◌==◌, length, get_elem?, set, replicate, ltb, arith,
}
use rjq.Models.{Job}
use rjq.Worker.{idle}
use rjq.Worker.Slots.{job_in}
use rjq.Server.Goroutines.{
  Phase, looking, spotted, awaiting, taken, marked, registered, processing, returned, judged,
  busy_yet, registered_yet, dying, over,
}

-- The job that the worker's slot names.
abbrev pub in_slot : Phase → Option Job
in_slot looking = none
in_slot spotted = none
in_slot (awaiting j) = none
in_slot (taken j) = none
in_slot (marked j) = none
in_slot (registered j) = some j
in_slot (processing j) = some j
in_slot (returned o j) = some j
in_slot (judged o x j) = some j
in_slot (busy_yet b j) = some j
in_slot (registered_yet b j) = some j
in_slot dying = none
in_slot over = none

-- What the worker adds to the gauge.
abbrev pub busy_in : Phase → ℕ
busy_in looking = 0
busy_in spotted = 0
busy_in (awaiting j) = 0
busy_in (taken j) = 0
busy_in (marked j) = 0
busy_in (registered j) = 0
busy_in (processing j) = 1
busy_in (returned o j) = 1
busy_in (judged o x j) = 1
busy_in (busy_yet b j) = 1
busy_in (registered_yet b j) = 0
busy_in dying = 0
busy_in over = 0

-- What all the workers add up to.
abbrev pub total : (Phase → ℕ) → List Phase → ℕ
total f [] = 0
total f (p ∷ ps) = f p + total f ps

abbrev pub busy_count : List Phase → ℕ
busy_count ps = total busy_in ps

-- Whether the worker has a goroutine.
abbrev pub lives_in : Phase → ℕ
lives_in looking = 1
lives_in spotted = 1
lives_in (awaiting j) = 1
lives_in (taken j) = 1
lives_in (marked j) = 1
lives_in (registered j) = 1
lives_in (processing j) = 1
lives_in (returned o j) = 1
lives_in (judged o x j) = 1
lives_in (busy_yet b j) = 1
lives_in (registered_yet b j) = 1
lives_in dying = 1
lives_in over = 0

abbrev pub lives_at : Option Phase → ℕ
lives_at none = 0
lives_at (some p) = lives_in p

pub over_of_dead : (p : Phase) → lives_in p ≡ 0 → p ≡ over
over_of_dead over h = refl
over_of_dead looking h = absurd (omega arith)
over_of_dead spotted h = absurd (omega arith)
over_of_dead (awaiting j) h = absurd (omega arith)
over_of_dead (taken j) h = absurd (omega arith)
over_of_dead (marked j) h = absurd (omega arith)
over_of_dead (registered j) h = absurd (omega arith)
over_of_dead (processing j) h = absurd (omega arith)
over_of_dead (returned o j) h = absurd (omega arith)
over_of_dead (judged o x j) h = absurd (omega arith)
over_of_dead (busy_yet b j) h = absurd (omega arith)
over_of_dead (registered_yet b j) h = absurd (omega arith)
over_of_dead dying h = absurd (omega arith)

module _ {A B : Type 0} (f : A → B) where
  pub map-set : (xs : List A) (i : ℕ) (x : A) → map f (set xs i x) ≡ set (map f xs) i (f x)
  map-set [] i x = refl
  map-set (y ∷ ys) zero x = refl
  map-set (y ∷ ys) (suc i) x = ap (◌∷◌ (f y)) (map-set ys i x)

  -- What is written has the image that was there.
  pub map-set_same :
      (xs : List A) (i : ℕ) (x y : A)
      → get_elem? xs i ≡ some x
      → f y ≡ f x
      → map f (set xs i y) ≡ map f xs
  map-set_same [] i x y h e = refl
  map-set_same (z ∷ zs) zero x y h e = ap (λ o. o ∷ map f zs) (e ∙ sym (ap f (cc)))
  map-set_same (z ∷ zs) (suc i) x y h e = ap (◌∷◌ (f z)) (map-set_same zs i x y h e)

pub length-set : (ps : List Phase) (i : ℕ) (p : Phase) → length (set ps i p) ≡ length ps
length-set [] i p = refl
length-set (q ∷ qs) zero p = refl
length-set (q ∷ qs) (suc i) p = ap suc (length-set qs i p)

pub elem_below :
    (ps : List Phase) (i : ℕ) → ltb i (length ps) ≡ true → (p : Phase) × (get_elem? ps i ≡ some p)
elem_below [] i h = absurd (ground arith)
elem_below (q ∷ qs) zero h = (q, refl)
elem_below (q ∷ qs) (suc i) h = elem_below qs i (ground arith)

pub total-set :
    (f : Phase → ℕ) (ps : List Phase) (i : ℕ) (p q : Phase)
    → get_elem? ps i ≡ some p
    → total f (set ps i q) + f p ≡ total f ps + f q
total-set f [] i p q h = cc
total-set f (r ∷ rs) zero p q h = let e : r ≡ p = cc in rw e (omega arith)
total-set f (r ∷ rs) (suc i) p q h = omega (arith, total-set f rs i p q h)

pub lives_at-set :
    (ps : List Phase) (i j : ℕ) (p q : Phase)
    → get_elem? ps i ≡ some p
    → lives_at (get_elem? (set ps i q) j) + (if j == i then lives_in p else 0)
      ≡ lives_at (get_elem? ps j) + (if j == i then lives_in q else 0)
lives_at-set [] i j p q h = cc
lives_at-set (r ∷ rs) zero zero p q h = let e : r ≡ p = cc in rw e (omega arith)
lives_at-set (r ∷ rs) zero (suc j) p q h = ground arith
lives_at-set (r ∷ rs) (suc i) zero p q h = ground arith
lives_at-set (r ∷ rs) (suc i) (suc j) p q h = ground (arith, lives_at-set rs i j p q h)

-- The state after `Start`.
pub slots-replicate : (n : ℕ) → map job_in (replicate n idle) ≡ map in_slot (replicate n looking)
slots-replicate zero = refl
slots-replicate (suc n) = ap (◌∷◌ none) (slots-replicate n)

pub busy_count-replicate : (n : ℕ) → busy_count (replicate n looking) ≡ 0
busy_count-replicate zero = refl
busy_count-replicate (suc n) = omega (arith, busy_count-replicate n)

pub lives_at-replicate :
    (n i : ℕ) → lives_at (get_elem? (replicate n looking) i) ≡ (if ltb i n then 1 else 0)
lives_at-replicate zero i = ground arith
lives_at-replicate (suc n) zero = ground arith
lives_at-replicate (suc n) (suc i) = ground (arith, lives_at-replicate n i)

pub length-replicate : (n : ℕ) → length (replicate n looking) ≡ n
length-replicate zero = refl
length-replicate (suc n) = ap suc (length-replicate n)
