-- ===== src/Workspace/Paths/Written.antt =====
-- A path that may be written is the path that a read of it finds.
use Prim.Native.String.{◌++◌ as ◌+++◌}
use text.Mathlib.TextLemmas.{append_assoc}
use sci_pegasus.Common.{
  String, true, false, Option, none, some, List, ◌≡◌, refl, sym, ap, subst, ◌∙◌, arith, Bool-cases,
  Option-cases, inl, inr, false≢true,
}
use sci_pegasus.Common.Texts.{starts_with, split, split-cons, split-below, starts_with-append}
use sci_pegasus.Workspace.Paths.{
  Unicode, strip_workspace, normalize_path, canonical_write_path, unless_inherited, WritePolicy,
  default_policy, is_root_allowed, within_policy, write_path,
}
use sci_pegasus.Workspace.Paths.Normal.{
  IsSafePath, IsNormalization, normalize_path-IsSafePath, normalize_path-stripped,
  normalize_path-safe, stripped-stable,
}

-- What write_path has tested.
pub record IsWritable (u : Unicode) (p : WritePolicy) (input path : String) : Type 0 where
  pub is_normalized : normalize_path u input ≡ some path
  pub root_allowed : is_root_allowed p path (split 47 path) ≡ true
  pub is_within : within_policy u p path (split 47 path) ≡ true

unless_inherited-some :
    (o : Option String) (path : String) → unless_inherited o ≡ some path → o ≡ some path
unfolding unless_inherited
unless_inherited-some none path h = h
unless_inherited-some (some x) path h = ground arith

canonical_write_path-normalize :
    (u : Unicode) (input path : String)
    → canonical_write_path u input ≡ some path
    → normalize_path u input ≡ some path
unfolding canonical_write_path
canonical_write_path-normalize u input path h =
    unless_inherited-some (normalize_path u input) path h

within_policy-root :
    (u : Unicode) (p : WritePolicy) (path : String) (segments : List String)
    → within_policy u p path segments ≡ true
    → is_root_allowed p path segments ≡ true
unfolding within_policy
within_policy-root u p path segments h = ground arith

write_path-canonical :
    (u : Unicode) (p : WritePolicy) (input path : String)
    → write_path u p input ≡ some path
    → (canonical_write_path u input ≡ some path) × (within_policy u p path (split 47 path) ≡ true)
unfolding write_path
write_path-canonical u p input path h = elim (Option-cases (canonical_write_path u input)) [
  | inl e ↦ absurd (ground arith)
  | inr (x, e) ↦ elim (Bool-cases (within_policy u p x (split 47 x))) [
    | inl f ↦
        let same : x ≡ path = ground arith in
        (e ∙ ap (λ t. some t) same, subst (λ t. within_policy u p t (split 47 t) ≡ true) same f)
    | inr f ↦ absurd (ground arith)
  ]
]

pub write_path-IsWritable :
    (u : Unicode) (p : WritePolicy) (input path : String)
    → write_path u p input ≡ some path
    → IsWritable u p input path
write_path-IsWritable u p input path h =
    let (c, w) = write_path-canonical u p input path h in
    record {
      is_normalized = canonical_write_path-normalize u input path c;
      root_allowed = within_policy-root u p path (split 47 path) w;
      is_within = w;
    }

-- A path below workspace/ has a root that the default policy does not allow.
not_below_workspace :
    (path : String)
    → is_root_allowed default_policy path (split 47 path) ≡ true
    → starts_with "workspace/" path ≡ false
unfolding is_root_allowed split
not_below_workspace path h = elim (Bool-cases (starts_with "workspace/" path)) [
  | inr e ↦ e
  | inl e ↦
      let (r, below) = starts_with-append "workspace/" path e in
      let apart : path ≡ "workspace" +++ ("/" +++ r) = below ∙ append_assoc "workspace" "/" r in
      let segments = ap (λ t. split 47 t) apart ∙ split-below "workspace" r in
      let (x, xs, rest) = split-cons 47 r in absurd (false≢true (rw (segments, rest) at h))
]

starts_with-slash :
    (path : String) → starts_with "/" path ≡ false → starts_with "/workspace/" path ≡ false
unfolding starts_with
starts_with-slash String.[] h = refl
starts_with-slash (String.◌∷◌ c s) h = ground arith

strip_workspace-rooted :
    (path : String)
    → IsSafePath path
    → is_root_allowed default_policy path (split 47 path) ≡ true
    → strip_workspace path ≡ path
unfolding strip_workspace
strip_workspace-rooted path s h =
    rw (starts_with-slash path s.is_relative, not_below_workspace path h) refl

-- Under the default policy, a path that assertWorkspaceWritePath answers is normal: normalizing it again,
-- as every read of the file does, gives the same path. The form NFC is any function for which the end of
-- a normalised text is normalised.
pub write_path-normal :
    (u : Unicode) (input path : String)
    → IsNormalization u
    → write_path u default_policy input ≡ some path
    → normalize_path u path ≡ some path
write_path-normal u input path n h =
    let w = write_path-IsWritable u default_policy input path h in
    let safe = normalize_path-IsSafePath u input path w.is_normalized in
    let from = normalize_path-stripped u input path w.is_normalized in
    let stable : u.nfc path ≡ path =
      subst (λ t. u.nfc t ≡ t) (sym from) (stripped-stable u input n) in
    normalize_path-safe u path safe
      (ap (λ t. strip_workspace t) stable ∙ strip_workspace-rooted path safe w.root_allowed)
