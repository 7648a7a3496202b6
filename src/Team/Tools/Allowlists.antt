-- ===== src/Team/Tools/Allowlists.antt =====
-- The allowlist comparison decides inclusion of what the two lists permit.
use sci_pegasus.Common.{
  ◌≡◌, ◌↔◌, refl, String, Bool, true, ◌||◌, List, [], ◌∷◌, eq_iff, eq_refl, arith, every,
  Bool-cases, inl, inr,
}
use sci_pegasus.Team.Tools.{includes, is_tool_allowlist_subset}

-- A list with `*` permits every tool.
unfoldable pub permits : List String → String → Bool
unfolding includes
permits names name = includes names "*" || includes names name

includes-every :
    (p : String → Bool) (names : List String) (name : String)
    → every p names ≡ true
    → includes names name ≡ true
    → p name ≡ true
unfolding includes
includes-every p [] name h m = cc
includes-every p (n ∷ ns) name h m = ground (arith, eq_iff n name, includes-every p ns name)

every-includes :
    (p : String → Bool) (names : List String)
    → ((name : String) → includes names name ≡ true → p name ≡ true)
    → every p names ≡ true
unfolding includes
every-includes p [] h = refl
every-includes p (n ∷ ns) h =
    ground (arith, h n, eq_refl n, every-includes p ns λ m e. h m (ground arith))

subset→permits :
    (child parent : List String)
    → is_tool_allowlist_subset child parent ≡ true
    → (name : String) → permits child name ≡ true
    → permits parent name ≡ true
unfolding is_tool_allowlist_subset permits
subset→permits child parent h name m = ground (arith, includes-every (includes parent) child name)

permits→subset :
    (child parent : List String)
    → ((name : String) → permits child name ≡ true → permits parent name ≡ true)
    → is_tool_allowlist_subset child parent ≡ true
unfolding is_tool_allowlist_subset permits
permits→subset child parent h = elim (Bool-cases (includes parent "*")) [
  | inl e ↦ ground arith
  | inr e ↦ ground (arith, h "*", every-includes (includes parent) child λ m k. ground (arith, h m))
]

-- A child's list is accepted under a parent's list exactly when every tool that the child's list
-- permits, `*` included, the parent's permits too.
pub allowlist_subset_iff :
    (child parent : List String)
    → (is_tool_allowlist_subset child parent ≡ true)
      ↔ ((name : String) → permits child name ≡ true → permits parent name ≡ true)
allowlist_subset_iff child parent = (subset→permits child parent, permits→subset child parent)
