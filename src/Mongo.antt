-- ===== src/Mongo.antt =====
-- The document store. MongoDB is not part of the repository: what the repository relies on is that
-- one write to one document tests its filter and applies its update atomically.
use sci_pegasus.Common.{
  ◌≡◌, refl, Bool, true, false, Option, none, some, Bool-cases, inl, inr, if◌then◌else◌,
}

-- The operations, on the document that a unique id selects (`none` where there is none).
pub record Mongo : Type 1 where
  -- findOneAndUpdate with returnDocument 'after': what was returned, and the document left.
  pub find_one_and_update : (D : Type 0) → (D → Bool) → (D → D) → Option D → Option D × Option D
  -- an update with upsert, given what it inserts
  pub upsert : (D : Type 0) → D → (D → D) → Option D → D

-- The documented behaviour.
pub record IsMongo (m : Mongo) : Type 1 where
  pub absent :
      (D : Type 0) (p : D → Bool) (u : D → D) → m.find_one_and_update D p u none ≡ (none, none)
  pub hit :
      (D : Type 0) (p : D → Bool) (u : D → D) (d : D)
      → p d ≡ true
      → m.find_one_and_update D p u (some d) ≡ (some (u d), some (u d))
  pub miss :
      (D : Type 0) (p : D → Bool) (u : D → D) (d : D)
      → p d ≡ false
      → m.find_one_and_update D p u (some d) ≡ (none, some d)
  pub inserted : (D : Type 0) (new : D) (u : D → D) → m.upsert D new u none ≡ new
  pub updated : (D : Type 0) (new : D) (u : D → D) (d : D) → m.upsert D new u (some d) ≡ u d

abbrev pub atomic_update : (D : Type 0) → (D → Bool) → (D → D) → Option D → Option D × Option D
atomic_update D p u none = (none, none)
atomic_update D p u (some d) = if p d then (some (u d), some (u d)) else (none, some d)

abbrev pub insert_or_update : (D : Type 0) → D → (D → D) → Option D → D
insert_or_update D new u none = new
insert_or_update D new u (some d) = u d

-- A store that behaves as documented.
abbrev pub plain : Mongo
plain = record { find_one_and_update = atomic_update; upsert = insert_or_update }

pub plain-IsMongo : IsMongo plain
plain-IsMongo = record {
  absent = λ D p u. refl;
  hit = λ D p u d h. rw h;
  miss = λ D p u d h. rw h;
  inserted = λ D new u. refl;
  updated = λ D new u d. refl;
}

module _ (m : Mongo) (documented : IsMongo m) where
  update_lem :
      (D : Type 0) (p : D → Bool) (u : D → D) (slot : Option D)
      → m.find_one_and_update D p u slot ≡ atomic_update D p u slot
  update_lem D p u none = documented.absent D p u
  update_lem D p u (some d) = elim (Bool-cases (p d)) [
    | inl e ↦ rw e (documented.hit D p u d e)
    | inr e ↦ rw e (documented.miss D p u d e)
  ]

  upsert_lem :
      (D : Type 0) (new : D) (u : D → D) (slot : Option D)
      → m.upsert D new u slot ≡ insert_or_update D new u slot
  upsert_lem D new u none = documented.inserted D new u
  upsert_lem D new u (some d) = documented.updated D new u d

  -- The behaviour determines the store, so a statement about `plain` holds of it.
  pub eq_plain : m ≡ plain
  eq_plain = λ i. record {
    find_one_and_update = λ D p u slot. update_lem D p u slot i;
    upsert = λ D new u slot. upsert_lem D new u slot i;
  }
