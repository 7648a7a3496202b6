-- ===== src/Queue/Rows.antt =====
-- lib/db/queue-model.ts: the rows of the queue, and what the collection of them does. The rows stand
-- in the order of their creation.
use sci_pegasus.Common.{
  ℕ, ◌≡◌, refl, String, Bool, true, false, not, Option, none, some, List, [], ◌∷◌, ◌++◌, ◌⊎◌, inl,
  select, length, if◌then◌else◌,
}

pub data Status : Type 0 where
  pending claimed acknowledged : Status

pub data Visibility : Type 0 where
  public internal : Visibility

pub data SourceKind : Type 0 where
  user agent team_supervision : SourceKind

-- The attachments are opaque to the queue.
pub record Row : Type 0 where
  pub queue_id : String
  pub conversation_id : String
  pub target_run_id : Option String
  pub content : String
  pub message_id : String
  pub idempotency_key : Option String
  pub images : Option String
  pub status : Status
  pub claim_id : Option String
  pub claimed_at : Option ℕ
  pub visibility : Visibility
  pub source_kind : SourceKind
  pub created_at : ℕ

abbrev pub is_pending : Status → Bool
is_pending Status.pending = true
is_pending _ = false

abbrev pub is_claimed : Status → Bool
is_claimed Status.claimed = true
is_claimed _ = false

-- status: { $in: ['pending', 'claimed'] }
abbrev pub is_live : Status → Bool
is_live Status.acknowledged = false
is_live _ = true

abbrev pub same_visibility : Visibility → Visibility → Bool
same_visibility public public = true
same_visibility internal internal = true
same_visibility _ _ = false

abbrev pub same_source : SourceKind → SourceKind → Bool
same_source user user = true
same_source agent agent = true
same_source team_supervision team_supervision = true
same_source _ _ = false

-- The operations on the collection. A count is the driver's modifiedCount or deletedCount.
pub record Collection : Type 0 where
  -- findOneAndUpdate, sorted by created_at, with returnDocument 'after'
  pub update_first : (Row → Bool) → (Row → Row) → List Row → Option Row × List Row
  pub update_many : (Row → Bool) → (Row → Row) → List Row → ℕ × List Row
  pub delete_many : (Row → Bool) → List Row → ℕ × List Row
  -- an upsert that only inserts; `none` is the duplicate-key error 11000
  pub find_or_insert : (Row → Bool) → Row → List Row → Option (Row × List Row)
  pub create : Row → List Row → Option (List Row)

abbrev pub find_first : (Row → Bool) → List Row → Option Row
find_first p [] = none
find_first p (r ∷ rs) = if p r then some r else find_first p rs

abbrev pub first_changed : (Row → Bool) → (Row → Row) → List Row → Option Row × List Row
first_changed p u [] = (none, [])
first_changed p u (r ∷ rs) =
    let (hit, rest) = first_changed p u rs in
    if p r then (some (u r), u r ∷ rs) else (hit, r ∷ rest)

abbrev pub change_where : (Row → Bool) → (Row → Row) → List Row → List Row
change_where p u [] = []
change_where p u (r ∷ rs) = (if p r then u r else r) ∷ change_where p u rs

-- The documented behaviour.
pub record IsCollection (c : Collection) : Type 0 where
  pub first :
      (p : Row → Bool) (u : Row → Row) (rows : List Row)
      → c.update_first p u rows ≡ first_changed p u rows
  pub many :
      (p : Row → Bool) (u : Row → Row) (rows : List Row)
      → (c.update_many p u rows).1 ≡ change_where p u rows
  pub deleted :
      (p : Row → Bool) (rows : List Row) → (c.delete_many p rows).1 ≡ select (λ r. not (p r)) rows
  pub known :
      (p : Row → Bool) (new r : Row) (rows : List Row)
      → find_first p rows ≡ some r
      → c.find_or_insert p new rows ≡ some (r, rows)
  pub inserted :
      (p : Row → Bool) (new : Row) (rows : List Row)
      → find_first p rows ≡ none
      → (c.find_or_insert p new rows ≡ some (new, rows ++ new ∷ []))
        ⊎ (c.find_or_insert p new rows ≡ none)

abbrev or_new : Row → List Row → Option Row → Row × List Row
or_new new rows none = (new, rows ++ new ∷ [])
or_new new rows (some r) = (r, rows)

-- A collection that behaves as documented, and never finds a duplicate key.
abbrev pub plain_collection : Collection
plain_collection = record {
  update_first = first_changed;
  update_many = λ p u rows. (length (select p rows), change_where p u rows);
  delete_many = λ p rows. (length (select p rows), select (λ r. not (p r)) rows);
  find_or_insert = λ p new rows. some (or_new new rows (find_first p rows));
  create = λ new rows. some (rows ++ new ∷ []);
}

pub plain_collection-IsCollection : IsCollection plain_collection
plain_collection-IsCollection = record {
  first = λ p u rows. refl;
  many = λ p u rows. refl;
  deleted = λ p rows. refl;
  known = λ p new r rows h. rw h;
  inserted = λ p new rows h. inl (rw h);
}
