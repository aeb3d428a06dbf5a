-- ===== src/Worker/Slots.antt =====
-- A worker's change of its own slot, as a change of one element of a list.
use rjq.Common.{
  ℕ, zero, suc, Option, none, some, List, [], ◌∷◌, ◌≡◌, ◌≢◌, refl, ap, map, get_elem?, set,
}
use rjq.Models.{Job}
use rjq.Worker.{Context, Slot, change_slot, slot_preempt}

abbrev pub modify : (Slot → Slot) → ℕ → List Slot → List Slot
modify f i [] = []
modify f zero (x ∷ xs) = f x ∷ xs
modify f (suc i) (x ∷ xs) = x ∷ modify f i xs

pub change_slot-modify :
    (f : Slot → Slot) (i : ℕ) (slots : List Slot)
    → change_slot f (get_elem? slots i) i slots ≡ modify f i slots
change_slot-modify f i [] = refl
change_slot-modify f zero (x ∷ xs) = refl
change_slot-modify f (suc i) (x ∷ xs) = go (get_elem? xs i) (change_slot-modify f i xs)
  where
    go :
        (o : Option Slot)
        → change_slot f o i xs ≡ modify f i xs
        → change_slot f o (suc i) (x ∷ xs) ≡ x ∷ modify f i xs
    go none e = ap (◌∷◌ x) e
    go (some y) e = ap (◌∷◌ x) e

-- The job that a slot names as its worker's.
abbrev pub current_job : Option (Job × Context) → Option Job
current_job none = none
current_job (some (j, x)) = some j

abbrev pub job_in : Slot → Option Job
job_in s = current_job s.current

pub modify-jobs :
    (f : Slot → Slot) (i : ℕ) (slots : List Slot)
    → ((x : Slot) → job_in (f x) ≡ job_in x)
    → map job_in (modify f i slots) ≡ map job_in slots
modify-jobs f i [] h = refl
modify-jobs f zero (x ∷ xs) h = ap (λ o. o ∷ map job_in xs) (h x)
modify-jobs f (suc i) (x ∷ xs) h = ap (◌∷◌ (job_in x)) (modify-jobs f i xs h)

pub modify-set :
    (f : Slot → Slot) (v : Option Job) (i : ℕ) (slots : List Slot)
    → ((x : Slot) → job_in (f x) ≡ v)
    → map job_in (modify f i slots) ≡ set (map job_in slots) i v
modify-set f v i [] h = refl
modify-set f v zero (x ∷ xs) h = ap (λ o. o ∷ map job_in xs) (h x)
modify-set f v (suc i) (x ∷ xs) h = ap (◌∷◌ (job_in x)) (modify-set f v i xs h)

-- A change that leaves the waiting job alone, or one of another slot.
pub modify-preempt :
    (f : Slot → Slot) (i k : ℕ) (slots : List Slot)
    → ((x : Slot) → (f x).preempt ≡ x.preempt)
    → slot_preempt (get_elem? (modify f i slots) k) ≡ slot_preempt (get_elem? slots k)
modify-preempt f i k [] h = refl
modify-preempt f zero zero (x ∷ xs) h = h x
modify-preempt f zero (suc k) (x ∷ xs) h = refl
modify-preempt f (suc i) zero (x ∷ xs) h = refl
modify-preempt f (suc i) (suc k) (x ∷ xs) h = modify-preempt f i k xs h

pub modify-elsewhere :
    (f : Slot → Slot) (i k : ℕ) (slots : List Slot)
    → i ≢ k
    → get_elem? (modify f i slots) k ≡ get_elem? slots k
modify-elsewhere f i k [] h = refl
modify-elsewhere f zero zero (x ∷ xs) h = absurd (h refl)
modify-elsewhere f zero (suc k) (x ∷ xs) h = refl
modify-elsewhere f (suc i) zero (x ∷ xs) h = refl
modify-elsewhere f (suc i) (suc k) (x ∷ xs) h = modify-elsewhere f i k xs (λ e. h (ap suc e))
