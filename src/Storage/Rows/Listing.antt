-- ===== src/Storage/Rows/Listing.antt =====
-- What a SELECT finds: filtering and sorting keep what holds of all rows, and lose no row.
use rjq.Common.{
  Bool, true, Option, none, some, List, [], ◌∷◌, ◌≡◌, refl, ap, subst, ◌⊎◌, inl, inr, All, keep,
  arith, Bool-cases,
}
use rjq.Models.{Job}
use rjq.Storage.Rows.{Row, place, order_by}
use rjq.Storage.Database.{scanned, scan_rows}

abbrev pub Any {ℓ} : {A : Type ℓ} → (A → Type 0) → List A → Type 0
Any P [] = ⊥
Any P (x ∷ xs) = P x ⊎ Any P xs

module _ {ℓ} {A : Type ℓ} where
  pub All-map : (P Q : A → Type 0) → ((a : A) → P a → Q a) → (xs : List A) → All P xs → All Q xs
  All-map P Q f [] h = tt
  All-map P Q f (x ∷ xs) h = (f x h.0, All-map P Q f xs h.1)

  pub All-of : (P : A → Type 0) → ((a : A) → P a) → (xs : List A) → All P xs
  All-of P f [] = tt
  All-of P f (x ∷ xs) = (f x, All-of P f xs)

  pub All-keep : (P : A → Type 0) (p : A → Bool) (xs : List A) → All P xs → All P (keep p xs)
  All-keep P p [] h = tt
  All-keep P p (x ∷ xs) h = elim (Bool-cases (p x)) [
    | inl e ↦ rw e (h.0, All-keep P p xs h.1)
    | inr e ↦ rw e (All-keep P p xs h.1)
  ]

  pub Any-keep :
      (P : A → Type 0) (p : A → Bool) (x : A) (xs : List A)
      → Any P (keep p xs)
      → Any P (keep p (x ∷ xs))
  Any-keep P p x xs h = elim (Bool-cases (p x)) [ inl e ↦ rw e (inr h) | inr e ↦ rw e h ]

  -- An element that passes the test is among those kept.
  pub kept-Any :
      (R : A → A → Type 0) (p : A → Bool) (xs : List A)
      → All (λ x. R x x → p x ≡ true → Any (R x) (keep p xs)) xs
  kept-Any R p [] = tt
  kept-Any R p (x ∷ xs) = (
    (λ h e. rw e (inl h)),
    All-map _ _ (λ a k h e. Any-keep (R a) p x xs (k h e)) xs (kept-Any R p xs),
  )

module _ (lt : Row → Row → Bool) (P : Row → Type 0) where
  All-place : (r : Row) (rs : List Row) → P r → All P rs → All P (place lt r rs)
  unfolding place
  All-place r [] p h = (p, tt)
  All-place r (s ∷ rs) p h = elim (Bool-cases (lt s r)) [
    | inl e ↦ rw e (h.0, All-place r rs p h.1)
    | inr e ↦ rw e (p, h)
  ]

  pub All-order_by : (rs : List Row) → All P rs → All P (order_by lt rs)
  unfolding order_by
  All-order_by [] h = tt
  All-order_by (r ∷ rs) h = All-place r (order_by lt rs) h.0 (All-order_by rs h.1)

  Any-place : (r : Row) (rs : List Row) → P r ⊎ Any P rs → Any P (place lt r rs)
  unfolding place
  Any-place r [] h = h
  Any-place r (s ∷ rs) h = elim (Bool-cases (lt s r)) [
    | inl e ↦ rw e (behind (Any-place r rs) h)
    | inr e ↦ rw e h
  ]
    where
      behind :
          (P r ⊎ Any P rs → Any P (place lt r rs))
          → P r ⊎ P s ⊎ Any P rs
          → P s ⊎ Any P (place lt r rs)
      behind f (inl p) = inr (f (inl p))
      behind f (inr (inl p)) = inl p
      behind f (inr (inr k)) = inr (f (inr k))

  pub Any-order_by : (rs : List Row) → Any P rs → Any P (order_by lt rs)
  unfolding order_by
  Any-order_by [] h = h
  Any-order_by (r ∷ rs) (inl p) = Any-place r (order_by lt rs) (inl p)
  Any-order_by (r ∷ rs) (inr h) = Any-place r (order_by lt rs) (inr (Any-order_by rs h))

module _ (scan : Row → Option Job) (P : Row → Type 0) (Q : Job → Type 0)
    (reads : (r : Row) (j : Job) → scan r ≡ some j → P r → Q j) where
  -- The rows scan, one after another, and what holds of the rows holds of the jobs.
  pub scan_rows-All :
      (rs : List Row)
      → All (λ r. P r × ((j : Job) × (scan r ≡ some j))) rs
      → (js : List Job) × (scan_rows scan rs ≡ some js) × All Q js
  scan_rows-All [] h = ([], refl, tt)
  scan_rows-All (r ∷ rs) h =
      let (j, e) = h.0.1 in
      let (js, es, q) = scan_rows-All rs h.1 in (j ∷ js, rw (e, es) refl, (reads r j e h.0.0, q))

  pub scan_rows-Any :
      (rs : List Row) (js : List Job) → scan_rows scan rs ≡ some js → Any P rs → Any Q js
  scan_rows-Any [] js e h = absurd h
  scan_rows-Any (r ∷ rs) js e h = go (scan r) (scan_rows scan rs) js refl e h (scan_rows-Any rs)
    where
      go :
          (x : Option Job) (y : Option (List Job)) (js : List Job)
          → scan r ≡ x
          → scanned x y ≡ some js
          → P r ⊎ Any P rs
          → ((js : List Job) → y ≡ some js → Any P rs → Any Q js)
          → Any Q js
      go none y js p e h f = cc
      go (some j) none js p e h f = cc
      go (some j) (some ks) [] p e h f = cc
      go (some j) (some ks) (i ∷ is) p e (inl k) f =
          let same : j ≡ i = ground arith in inl (subst Q same (reads r j p k))
      go (some j) (some ks) (i ∷ is) p e (inr k) f =
          let same : ks ≡ is = ground arith in inr (f is (ap some same) k)
