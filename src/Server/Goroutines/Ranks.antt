-- ===== src/Server/Goroutines/Ranks.antt =====
-- How far a worker is from its end, and lists of phases in which none asks for a rate-limited job.
use rjq.Common.{
  Option, none, ℕ, zero, suc, ◌<◌, some, List, [], ◌∷◌, ◌++◌, ◌≡◌, refl, sym, ap, ◌⊎◌, ◌==◌,
  get_elem?, set, Bool-cases, inl, inr, arith,
}
use rjq.Worker.Lives.Supervision.{occurs}
use rjq.Server.Goroutines.{
  Phase, looking, spotted, awaiting, taken, marked, registered, processing, returned, judged,
  busy_yet, registered_yet, dying, over,
}
use rjq.Server.Goroutines.Phases.{total, lives_at}

-- Whether a worker is about to ask the rate-limited queue, or waits for a token with a job of it, and
-- so does not look at `done`.
abbrev pub asking : Phase → ℕ
asking spotted = 1
asking (awaiting j) = 1
asking looking = 0
asking (taken j) = 0
asking (marked j) = 0
asking (registered j) = 0
asking (processing j) = 0
asking (returned o j) = 0
asking (judged o x j) = 0
asking (busy_yet b j) = 0
asking (registered_yet b j) = 0
asking dying = 0
asking over = 0

abbrev pub NoneAsks : List Phase → Type 0
NoneAsks ps = total asking ps ≡ 0

pub set-NoneAsks :
    (ps : List Phase) (i : ℕ) (q : Phase) → NoneAsks ps → asking q ≡ 0 → NoneAsks (set ps i q)
set-NoneAsks [] i q h e = h
set-NoneAsks (p ∷ ps) zero q h e = omega (arith, h, e)
set-NoneAsks (p ∷ ps) (suc i) q h e = omega (arith, h, set-NoneAsks ps i q (omega (arith, h)) e)

pub none_asks :
    (ps : List Phase) (i : ℕ) (p : Phase) → NoneAsks ps → get_elem? ps i ≡ some p → asking p ≡ 0
none_asks [] i p h e = cc
none_asks (r ∷ ps) zero p h e = omega (arith, h, ap asked e)
  where
    asked : Option Phase → ℕ
    asked none = 0
    asked (some q) = asking q
none_asks (r ∷ ps) (suc i) p h e = none_asks ps i p (omega (arith, h)) e

-- How many steps a worker is away from its end at most, once the pool has stopped.
abbrev pub rank : Phase → ℕ
rank over = 0
rank dying = 1
rank looking = 2
rank spotted = 3
rank (awaiting j) = 11
rank (registered_yet b j) = 3
rank (busy_yet b j) = 4
rank (judged o x j) = 5
rank (returned o j) = 6
rank (processing j) = 7
rank (registered j) = 8
rank (marked j) = 9
rank (taken j) = 10

pub zero_or_pos : (n : ℕ) → (n ≡ 0) ⊎ (0 < n)
zero_or_pos zero = inl refl
zero_or_pos (suc n) = inr (omega arith)

-- A worker that has not ended.
pub unended :
    (ps : List Phase)
    → 0 < total rank ps
    → (i : ℕ) × (p : Phase) × (get_elem? ps i ≡ some p) × (0 < rank p)
unended [] h = absurd (omega arith)
unended (p ∷ ps) h = elim (zero_or_pos (rank p)) [
  | inr r ↦ (0, p, refl, r)
  | inl z ↦ let (i, q, e, r) = unended ps (omega arith) in (suc i, q, e, r)
]

pub split_at :
    (i : ℕ) (xs : List ℕ)
    → 0 < occurs i xs
    → (pre : List ℕ) × (post : List ℕ) × (xs ≡ pre ++ (i ∷ post))
split_at i [] h = absurd (omega arith)
split_at i (x ∷ xs) h = elim (Bool-cases (i == x)) [
  | inl e ↦ let same : i ≡ x = ground (arith, e) in ([], xs, ap (λ y. y ∷ xs) (sym same))
  | inr e ↦ let (pre, post, f) = split_at i xs (ground (arith, e)) in (x ∷ pre, post, ap (◌∷◌ x) f)
]

pub none_over : (ps : List Phase) (i : ℕ) → total rank ps ≡ 0 → lives_at (get_elem? ps i) ≡ 0
none_over [] i h = refl
none_over (over ∷ ps) zero h = refl
none_over (over ∷ ps) (suc i) h = none_over ps i (omega arith)
none_over (spotted ∷ ps) i h = absurd (omega arith)
none_over (awaiting j ∷ ps) i h = absurd (omega arith)
none_over (looking ∷ ps) i h = absurd (omega arith)
none_over (taken j ∷ ps) i h = absurd (omega arith)
none_over (marked j ∷ ps) i h = absurd (omega arith)
none_over (registered j ∷ ps) i h = absurd (omega arith)
none_over (processing j ∷ ps) i h = absurd (omega arith)
none_over (returned o j ∷ ps) i h = absurd (omega arith)
none_over (judged o x j ∷ ps) i h = absurd (omega arith)
none_over (busy_yet b j ∷ ps) i h = absurd (omega arith)
none_over (registered_yet b j ∷ ps) i h = absurd (omega arith)
none_over (dying ∷ ps) i h = absurd (omega arith)

pub nowhere : (xs : List ℕ) → ((i : ℕ) → occurs i xs ≡ 0) → xs ≡ []
nowhere [] h = refl
nowhere (x ∷ xs) h = absurd (ground (arith, h x))
