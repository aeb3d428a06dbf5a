-- ===== src/Queue/Delivery/Repeats/Due.antt =====
-- The unfinished rows, by their keys and queue types, and what the resets of `Recover` do to them.
use rjq.Common.{
  ℕ, String, Bool, true, false, ◌&&◌, List, [], ◌∷◌, ◌≡◌, refl, sym, inl, inr, keep, All, str_eq,
  eq_iff, arith, Bool-cases,
}
use rjq.Common.Monad.{Method}
use rjq.Models.{Job, pending, is_processing, empty}
use rjq.Errors.{Error}
use rjq.Storage.Rows.{Row, update}
use rjq.Storage.Rows.Laws.{All-update}
use rjq.Storage.Rows.Counting.{count}
use rjq.Storage.Rows.Listing.{All-map}
use rjq.Storage.Sqlite.Updates.{set_status}
use rjq.Storage.Sqlite.Lists.{is_unfinished}
use rjq.Queue.Delivery.Reads.{reset_all}

-- A test of a key and a queue type, on jobs and on unfinished rows.
abbrev pub Test : Type 0
Test = String → String → Bool

abbrev pub copies : Test → List Job → ℕ
copies q jobs = count (λ j. q j.id j.queue_type) jobs

abbrev pub due : Test → List Row → ℕ
due q rows = count (λ r. is_unfinished r && q r.id r.queue_type) rows

pub count-both :
    (u p : Row → Bool) (rows : List Row) → count p (keep u rows) ≡ count (λ r. u r && p r) rows
count-both u p [] = refl
count-both u p (r ∷ rows) = ground (arith, count-both u p rows)

-- Every row with the key is unfinished: with one row for a key, that of an unfinished row is.
abbrev pub Spares : List Row → String → Type 0
Spares rows id = All (λ (s : Row). str_eq id s.id ≡ true → is_unfinished s ≡ true) rows

pub due-update :
    (q : Test) (id : String) (now : ℕ) (rows : List Row)
    → Spares rows id
    → due q (update id (set_status pending empty now) rows) ≡ due q rows
due-update q id now [] h = refl
due-update q id now (r ∷ rows) h = ground (arith, h.0, due-update q id now rows h.1)

Spares-update :
    (i id : String) (now : ℕ) (rows : List Row)
    → Spares rows i
    → Spares (update id (set_status pending empty now) rows) i
Spares-update i id now rows h =
    All-update _ id (set_status pending empty now) rows (λ r k e. refl) h

unfoldable pub AllSpares : List Row → List Job → Type 0
AllSpares rows jobs = All (λ (j : Job). Spares rows j.id) jobs

AllSpares-update :
    (id : String) (now : ℕ) (rows : List Row) (jobs : List Job)
    → AllSpares rows jobs
    → AllSpares (update id (set_status pending empty now) rows) jobs
unfolding AllSpares
AllSpares-update id now rows jobs h = All-map _ _ (λ j k. Spares-update j.id id now rows k) jobs h

module _ {Q : Type 0} (enqueue : Job → Method Q Error (Unit {0})) (skip : Job → Bool)
    (now : ℕ) where
  module _ (P : List Row → Type 0)
      (resets : (id : String) (rows : List Row)
        → Spares rows id
        → P rows
        → P (update id (set_status pending empty now) rows)) where
    -- What a reset keeps is kept by all of them.
    pub reset_all-keeps :
        (jobs : List Job) (rows : List Row)
        → AllSpares rows jobs
        → P rows
        → P (reset_all enqueue skip now jobs rows)
    unfolding AllSpares
    reset_all-keeps [] rows h p = p
    reset_all-keeps (job ∷ jobs) rows h p = elim (Bool-cases (skip job)) [
      | inl e ↦ rw e (reset_all-keeps jobs rows h.1 p)
      | inr e ↦ elim (Bool-cases (is_processing job.status)) [
        | inl f ↦
            rw (e, f)
              (reset_all-keeps jobs (update job.id (set_status pending empty now) rows)
                (AllSpares-update job.id now rows jobs h.1) (resets job.id rows h.0 p))
        | inr f ↦ rw (e, f) (reset_all-keeps jobs rows h.1 p)
      ]
    ]

-- One row for a key, as the schema's primary key has it.
abbrev pub IsKeyed : List Row → Type 0
IsKeyed [] = Unit {0}
IsKeyed (r ∷ rows) = All (λ (s : Row). str_eq r.id s.id ≡ false) rows × IsKeyed rows

-- In a keyed table the key of an unfinished row is spared.
pub IsKeyed-Spares :
    (rows : List Row) → IsKeyed rows → All (λ r. is_unfinished r ≡ true → Spares rows r.id) rows
IsKeyed-Spares [] h = tt
IsKeyed-Spares (r ∷ rows) h = (
  (λ u. ((λ e. u), All-map _ _ (λ s k e. cc (k, e)) rows h.0)),
  both rows h.0 (IsKeyed-Spares rows h.1),
)
  where
    both :
        (ss : List Row)
        → All (λ (s : Row). str_eq r.id s.id ≡ false) ss
        → All (λ s. is_unfinished s ≡ true → Spares rows s.id) ss
        → All (λ s. is_unfinished s ≡ true → Spares (r ∷ rows) s.id) ss
    both [] a b = tt
    both (s ∷ ss) a b = ((λ u. ((λ e. absurd (apart s a.0 e)), b.0 u)), both ss a.1 b.1)
      where
        apart : (s : Row) → str_eq r.id s.id ≡ false → ¬ (str_eq s.id r.id ≡ true)
        apart s a e =
            let same : s.id ≡ r.id = (eq_iff s.id r.id).0 e in
            cc (a, (eq_iff r.id s.id).1 (sym same))

pub IsKeyed-update :
    (id : String) (now : ℕ) (rows : List Row)
    → IsKeyed rows
    → IsKeyed (update id (set_status pending empty now) rows)
IsKeyed-update id now [] h = tt
IsKeyed-update id now (r ∷ rows) h = elim (Bool-cases (str_eq id r.id)) [
  | inl e ↦ rw e (All-update _ id _ rows (λ s k. k) h.0, IsKeyed-update id now rows h.1)
  | inr e ↦ rw e (All-update _ id _ rows (λ s k. k) h.0, IsKeyed-update id now rows h.1)
]
