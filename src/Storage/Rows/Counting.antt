-- ===== src/Storage/Rows/Counting.antt =====
-- How many rows a query selects, whatever the order in which it lists them.
use rjq.Common.{
  ℕ, suc, Bool, true, Option, none, some, List, [], ◌∷◌, ◌≡◌, refl, ap, length, keep, arith,
}
use rjq.Models.{Job}
use rjq.Storage.Rows.{Row, place, order_by}
use rjq.Storage.Database.{scanned, scan_rows}

abbrev pub count {ℓ} : {A : Type ℓ} → (A → Bool) → List A → ℕ
count p xs = length (keep p xs)

count-place :
    (p : Row → Bool) (lt : Row → Row → Bool) (r : Row) (rs : List Row)
    → count p (place lt r rs) ≡ count p (r ∷ rs)
unfolding place
count-place p lt r [] = refl
count-place p lt r (s ∷ rs) = ground (arith, count-place p lt r rs)

pub count-order_by :
    (p : Row → Bool) (lt : Row → Row → Bool) (rs : List Row) → count p (order_by lt rs) ≡ count p rs
unfolding order_by
count-order_by p lt [] = refl
count-order_by p lt (r ∷ rs) =
    ground (arith, count-place p lt r (order_by lt rs), count-order_by p lt rs)

-- The rows of a kind are among those of a wider kind.
pub count-keep :
    (p u : Row → Bool) (rs : List Row)
    → ((r : Row) → p r ≡ true → u r ≡ true)
    → count p (keep u rs) ≡ count p rs
count-keep p u [] h = refl
count-keep p u (r ∷ rs) h = ground (arith, h r, count-keep p u rs h)

-- Scanning keeps the number of those that pass a test, on rows and on jobs alike.
pub count-scan_rows :
    (p : Row → Bool) (P : Job → Bool) (scan : Row → Option Job) (rs : List Row) (js : List Job)
    → ((r : Row) (j : Job) → scan r ≡ some j → P j ≡ p r)
    → scan_rows scan rs ≡ some js
    → count P js ≡ count p rs
count-scan_rows p P scan [] js h e = ground arith
count-scan_rows p P scan (r ∷ rs) js h e =
    go (scan r) (scan_rows scan rs) refl refl e (λ ks b. count-scan_rows p P scan rs ks h b)
  where
    go :
        (o : Option Job) (rest : Option (List Job))
        → scan r ≡ o
        → scan_rows scan rs ≡ rest
        → scanned o rest ≡ some js
        → ((ks : List Job) → scan_rows scan rs ≡ some ks → count P ks ≡ count p rs)
        → count P js ≡ count p (r ∷ rs)
    go none rest a b k ih = cc
    go (some j) none a b k ih = cc
    go (some j) (some ks) a b k ih = ground (arith, h r j a, ih ks b)

pub count-true {ℓ} : {A : Type ℓ} (xs : List A) → count (λ _. true) xs ≡ length xs
count-true [] = refl
count-true (x ∷ xs) = ap suc (count-true xs)
