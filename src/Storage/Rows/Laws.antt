-- ===== src/Storage/Rows/Laws.antt =====
-- What an UPDATE by the primary key does to the rows of the table, and that ORDER BY only reorders.
use mathlib.Core.List.Perm
use rjq.Common.{
  String, Bool, Option, none, some, List, [], ◌∷◌, ◌++◌, ap, map, Perm, ◌≡◌, refl, inl, inr,
  if◌then◌else◌, All, arith, str_eq, eq_iff, Bool-cases,
}
use rjq.Storage.Rows.{Row, find, update, place, order_by}

abbrev pub ids : List Row → List String
ids = map (λ r. r.id)

-- An UPDATE never assigns the key.
abbrev pub KeepsId : (Row → Row) → Type 0
KeepsId f = (r : Row) → (f r).id ≡ r.id

pub ids-append : (rs ss : List Row) → ids (rs ++ ss) ≡ ids rs ++ ids ss
ids-append [] ss = refl
ids-append (r ∷ rs) ss = ap (◌∷◌ r.id) (ids-append rs ss)

pub ids-update :
    (i : String) (f : Row → Row) (rs : List Row) → KeepsId f → ids (update i f rs) ≡ ids rs
ids-update i f [] k = refl
ids-update i f (r ∷ rs) k = ground (arith, k r, ids-update i f rs k)

abbrev pub map_row : (Row → Row) → Option Row → Option Row
map_row f none = none
map_row f (some r) = some (f r)

pub find-update :
    (i k : String) (f : Row → Row) (rs : List Row)
    → KeepsId f
    → find i (update k f rs) ≡ (if str_eq i k then map_row f (find i rs) else find i rs)
find-update i k f [] h = ground arith
find-update i k f (r ∷ rs) h =
    ground (arith, h r, eq_iff i k, eq_iff k r.id, eq_iff i r.id, find-update i k f rs h)

pub find-update_self :
    (i : String) (f : Row → Row) (rs : List Row)
    → KeepsId f
    → find i (update i f rs) ≡ map_row f (find i rs)
find-update_self i f rs h = ground (arith, eq_iff i i, find-update i i f rs h)

pub find-append-none :
    (i : String) (rs : List Row) (r : Row)
    → find i rs ≡ none
    → find i (rs ++ r ∷ []) ≡ (if str_eq i r.id then some r else none)
find-append-none i [] r h = refl
find-append-none i (s ∷ rs) r h = ground (arith, find-append-none i rs r)

pub All-update {κ} :
    (P : Row → Type κ) (i : String) (f : Row → Row) (rs : List Row)
    → ((r : Row) → P r → P (f r))
    → All P rs
    → All P (update i f rs)
All-update P i f [] k h = tt
All-update P i f (r ∷ rs) k h = elim (Bool-cases (str_eq i r.id)) [
  | inl e ↦ rw e (k r h.0, All-update P i f rs k h.1)
  | inr e ↦ rw e (h.0, All-update P i f rs k h.1)
]

module _ (lt : Row → Row → Bool) where
  pub place-perm : (r : Row) (rs : List Row) → Perm (place lt r rs) (r ∷ rs)
  unfolding place
  place-perm r [] = Perm.refl (r ∷ [])
  place-perm r (s ∷ rs) = elim (Bool-cases (lt s r)) [
    | inl e ↦ rw e (Perm.trans (Perm.cons s (place-perm r rs)) (Perm.swap r s rs))
    | inr e ↦ rw e (Perm.refl (r ∷ s ∷ rs))
  ]

  pub order_by-perm : (rs : List Row) → Perm (order_by lt rs) rs
  unfolding order_by
  order_by-perm [] = Perm.nil
  order_by-perm (r ∷ rs) =
      Perm.trans (place-perm r (order_by lt rs)) (Perm.cons r (order_by-perm rs))
