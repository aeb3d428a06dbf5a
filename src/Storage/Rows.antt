-- ===== src/Storage/Rows.antt =====
-- The table `jobs` and the statements that the two backends run on it: migrate, INSERT, UPDATE,
-- SELECT with WHERE and ORDER BY. A row holds the columns of the schema.
pub mod Laws
pub mod Listing
pub mod Counting
use rjq.Common.{
  ℕ, String, Bool, ◌&&◌, ◌||◌, Option, none, some, List, [], ◌∷◌, if◌then◌else◌, ltb, ◌==◌, str_eq,
}
use rjq.Models.{Status, pending, processing, completed, failed, Message}

pub record Row : Type 0 where
  pub id : String
  pub job_type : String
  pub payload : String
  pub queue_type : String
  pub priority : ℕ
  pub status : Status
  pub retry_count : ℕ
  pub max_retries : ℕ
  pub created_at : ℕ
  pub updated_at : ℕ
  pub processed_at : Option ℕ
  pub error_message : Option Message

-- `SELECT … WHERE id = ?`, read by `QueryRow`: the first row, if there is one.
abbrev pub find : String → List Row → Option Row
find i [] = none
find i (r ∷ rs) = if str_eq i r.id then some r else find i rs

-- `UPDATE … SET … WHERE id = ?`
abbrev pub update : String → (Row → Row) → List Row → List Row
update i f [] = []
update i f (r ∷ rs) = (if str_eq i r.id then f r else r) ∷ update i f rs

-- `CASE WHEN ? IN ('completed', 'failed') THEN ? ELSE processed_at END`
abbrev pub finished_at : Status → ℕ → Option ℕ → Option ℕ
finished_at completed now old = some now
finished_at failed now old = some now
finished_at pending now old = old
finished_at processing now old = old

-- `ORDER BY priority DESC, created_at ASC`: whether the first row may not stand behind the second.
abbrev pub before : Row → Row → Bool
before r s =
    ltb s.priority r.priority || (r.priority == s.priority) && ltb r.created_at s.created_at

-- `ORDER BY created_at ASC`, and the same with `DESC`.
abbrev pub older : Row → Row → Bool
older r s = ltb r.created_at s.created_at

abbrev pub newer : Row → Row → Bool
newer r s = ltb s.created_at r.created_at

-- SQL leaves the order of equal rows open; here they stay in the order of insertion.
pub place : (Row → Row → Bool) → Row → List Row → List Row
place lt r [] = r ∷ []
place lt r (s ∷ rs) = if lt s r then s ∷ place lt r rs else r ∷ s ∷ rs

unfoldable pub order_by : (Row → Row → Bool) → List Row → List Row
unfolding place
order_by lt [] = []
order_by lt (r ∷ rs) = place lt r (order_by lt rs)
