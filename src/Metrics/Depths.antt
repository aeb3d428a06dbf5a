-- ===== src/Metrics/Depths.antt =====
-- The gauges are the pending counts of `GET /counts`.
use rjq.Common.{
  ℕ, suc, String, Option, none, some, List, [], ◌∷◌, ◌≡◌, refl, ◌∙◌, inl, inr, if◌then◌else◌, ◌==◌,
  str_eq, eq_iff, keep, arith, Bool-cases,
}
use rjq.Common.Monad.{Result, ok, err}
use rjq.Models.{Status, pending, is_pending}
use rjq.Errors.{Error}
use rjq.Storage.Rows.{Row}
use rjq.Storage.Rows.Counting.{count}
use rjq.Storage.Database.{Database}
use rjq.Storage.Sqlite.Lists.{in_group, count_by_queue_and_status}
use rjq.Metrics.{add_to, group_by_queue, collect}

abbrev pub lookup : String → List (String × ℕ) → Option ℕ
lookup q [] = none
lookup q ((k, n) ∷ groups) = if str_eq k q then some n else lookup q groups

-- No queue type has two gauges.
abbrev pub IsUnique : List (String × ℕ) → Type 0
IsUnique [] = Unit {0}
IsUnique ((k, n) ∷ groups) = (lookup k groups ≡ none) × IsUnique groups

abbrev or_zero : Option ℕ → ℕ
or_zero none = 0
or_zero (some n) = n

lookup-add_to :
    (p q : String) (groups : List (String × ℕ))
    → lookup p (add_to q groups)
      ≡ (if str_eq q p then some (suc (or_zero (lookup p groups))) else lookup p groups)
lookup-add_to p q [] = ground arith
lookup-add_to p q ((k, n) ∷ groups) =
    ground (arith, eq_iff k q, eq_iff k p, eq_iff q p, lookup-add_to p q groups)

add_to-IsUnique :
    (q : String) (groups : List (String × ℕ)) → IsUnique groups → IsUnique (add_to q groups)
add_to-IsUnique q [] h = (refl, tt)
add_to-IsUnique q ((k, n) ∷ groups) h = elim (Bool-cases (str_eq k q)) [
  | inl e ↦ rw e h
  | inr e ↦ rw e (
    ground (arith, eq_iff k q, eq_iff q k, lookup-add_to k q groups),
    add_to-IsUnique q groups h.1,
  )
]

abbrev counted : ℕ → Option ℕ
counted n = if n == 0 then none else some n

lookup-group_by_queue :
    (q : String) (rows : List Row)
    → lookup q (group_by_queue rows) ≡ counted (count (λ r. str_eq r.queue_type q) rows)
unfolding group_by_queue
lookup-group_by_queue q [] = refl
lookup-group_by_queue q (r ∷ rows) =
    lookup-add_to q r.queue_type (group_by_queue rows)
    ∙ ground (arith, lookup-group_by_queue q rows)

group_by_queue-IsUnique : (rows : List Row) → IsUnique (group_by_queue rows)
unfolding group_by_queue
group_by_queue-IsUnique [] = tt
group_by_queue-IsUnique (r ∷ rows) =
    add_to-IsUnique r.queue_type (group_by_queue rows) (group_by_queue-IsUnique rows)

count-in_group :
    (q : String) (rows : List Row)
    → count (λ r. str_eq r.queue_type q) (keep (λ r. is_pending r.status) rows)
      ≡ count (in_group q pending) rows
count-in_group q [] = refl
count-in_group q (r ∷ rows) = ground (arith, count-in_group q rows)

-- What the collector emits, beside the counts by queue and status of the same table.
abbrev pub Depths :
    List (String × ℕ) × Database → Result Error (String → Status → Option ℕ) × Database → Type 0
Depths (gauges, db) (ok counts, db') =
    (db ≡ db') × IsUnique gauges × ((q : String) → lookup q gauges ≡ counts q pending)
Depths (gauges, db) (err e, db') = (db ≡ db') × (gauges ≡ [])

-- On any driver the collector emits, for each queue type, the pending count of
-- `CountByQueueAndStatus` and no second gauge; where that call fails, it emits nothing.
pub collect-Depths : (db : Database) → Depths (collect db) (count_by_queue_and_status db)
unfolding collect count_by_queue_and_status
collect-Depths db = elim (Bool-cases (db.driver.answers db.calls)) [
  | inl a ↦ simp a (
    refl,
    group_by_queue-IsUnique (keep (λ r. is_pending r.status) db.rows),
    λ q.
        lookup-group_by_queue q (keep (λ r. is_pending r.status) db.rows)
        ∙ (rw (count-in_group q db.rows) refl),
  )
  | inr a ↦ simp a (refl, refl)
]
