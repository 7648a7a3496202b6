-- ===== src/Workspace/Paths/Normal.antt =====
-- What an accepted path is like, and that it is accepted again as it is.
use sci_pegasus.Common.{
  ℕ, ◌≤◌, String, ◌==◌, false, some, ◌≡◌, sym, subst, ◌∙◌, exists, length, arith, Bool-cases, inl,
  inr,
}
use sci_pegasus.Common.Texts.{
  starts_with, drop_chars, has_char, split, join_slash, join_slash-split,
}
use sci_pegasus.Workspace.Paths.{
  Unicode, strip_workspace, is_control, is_backslash, is_unsafe_segment, is_longer, checked_path,
  normalize_path,
}

-- The rules of normalizeWorkspacePath.
pub record IsSafePath (path : String) : Type 0 where
  pub is_some : path == "" ≡ false
  pub is_short : is_longer 512 path ≡ false
  pub is_relative : starts_with "/" path ≡ false
  pub has_no_backslash : has_char is_backslash path ≡ false
  pub has_no_control : has_char is_control path ≡ false
  -- no segment is empty, `.` or `..`
  pub has_safe_segments : exists is_unsafe_segment (split 47 path) ≡ false
  pub is_shallow : length (split 47 path) ≤ 8
  pub has_short_segments : exists (is_longer 128) (split 47 path) ≡ false

checked_path-IsSafePath :
    (path out : String) → checked_path path (split 47 path) ≡ some out → IsSafePath path
unfolding checked_path
checked_path-IsSafePath path out h = record {
  is_some = ground arith;
  is_short = ground arith;
  is_relative = ground arith;
  has_no_backslash = ground arith;
  has_no_control = ground arith;
  has_safe_segments = ground arith;
  is_shallow = ground arith;
  has_short_segments = ground arith;
}

checked_path_same : (path out : String) → checked_path path (split 47 path) ≡ some out → out ≡ path
unfolding checked_path
checked_path_same path out h =
    let joined : out ≡ join_slash (split 47 path) = ground arith in joined ∙ join_slash-split path

checked_path-safe :
    (path : String) → IsSafePath path → checked_path path (split 47 path) ≡ some path
unfolding checked_path
checked_path-safe path s =
    rw
      (
        join_slash-split path,
        s.is_some,
        s.is_short,
        s.is_relative,
        s.has_no_backslash,
        s.has_no_control,
        s.has_safe_segments,
        s.has_short_segments,
      )
      (let shallow = s.is_shallow in ground arith)

pub normalize_path-IsSafePath :
    (u : Unicode) (input path : String) → normalize_path u input ≡ some path → IsSafePath path
unfolding normalize_path
normalize_path-IsSafePath u input path h =
    let stripped = strip_workspace (u.nfc input) in
    subst (λ p. IsSafePath p) (sym (checked_path_same stripped path h))
      (checked_path-IsSafePath stripped path h)

pub normalize_path-stripped :
    (u : Unicode) (input path : String)
    → normalize_path u input ≡ some path
    → path ≡ strip_workspace (u.nfc input)
unfolding normalize_path
normalize_path-stripped u input path h = checked_path_same (strip_workspace (u.nfc input)) path h

-- A safe path that the normalisation of its text leaves, and that is not below workspace/, is normal.
pub normalize_path-safe :
    (u : Unicode) (path : String)
    → IsSafePath path
    → strip_workspace (u.nfc path) ≡ path
    → normalize_path u path ≡ some path
unfolding normalize_path
normalize_path-safe u path s e = rw e (checked_path-safe path s)

-- The documented behaviour of the form NFC: the end of a normalised text is normalised.
pub record IsNormalization (u : Unicode) : Type 0 where
  pub suffix_stable : (n : ℕ) (s : String) → u.nfc (drop_chars n (u.nfc s)) ≡ drop_chars n (u.nfc s)

pub stripped-stable :
    (u : Unicode) (s : String)
    → IsNormalization u
    → u.nfc (strip_workspace (u.nfc s)) ≡ strip_workspace (u.nfc s)
unfolding strip_workspace drop_chars
stripped-stable u s n = elim (Bool-cases (starts_with "/workspace/" (u.nfc s))) [
  | inl e ↦ rw e (n.suffix_stable 11 s)
  | inr e ↦ rw e (elim (Bool-cases (starts_with "workspace/" (u.nfc s))) [
    | inl f ↦ rw f (n.suffix_stable 10 s)
    | inr f ↦ rw f (n.suffix_stable 0 s)
  ])
]
