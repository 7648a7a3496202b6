-- ===== src/Workspace/Acl/Segments.antt =====
-- The access rules with the path policy of lib/workspace/path-policy.ts.
use Prim.Native.String.{◌++◌ as ◌+++◌}
use text.Mathlib.TextLemmas.{append_assoc}
use sci_pegasus.Common.{
  String, true, false, Option, some, List, [], ◌∷◌, ◌++◌, ◌≡◌, refl, sym, ap, subst, ◌∙◌, eqb,
  exists, All, ◌≢◌, arith, Option-cases, inl, inr, eq_iff,
}
use sci_pegasus.Common.Texts.{
  starts_with, has_char, split, split-below, split_whole, starts_with-append,
}
use sci_pegasus.Workspace.Paths.{
  Unicode, normalize_path, write_path, default_policy, is_unsafe_segment,
}
use sci_pegasus.Workspace.Paths.Normal.{IsNormalization, normalize_path-IsSafePath}
use sci_pegasus.Workspace.Paths.Written.{write_path-normal}
use sci_pegasus.Workspace.Acl.{
  PathPolicy, Actor, agent_private, granted, write_allowed, write_by_visibility, private_path,
  agent_private_root, is_agent_id, all_id_chars, is_id_char, between,
}
use sci_pegasus.Workspace.Acl.Writes.{write_by_visibility-IsOwnFile}

-- The policy that the module gives, with the default roots.
abbrev pub policy_of : Unicode → PathPolicy
policy_of u = record { normalize = normalize_path u; write_path = write_path u default_policy }

all_id_chars-slash : (id : String) → all_id_chars id ≡ true → has_char (λ c. eqb c 47) id ≡ false
unfolding all_id_chars has_char is_id_char between
all_id_chars-slash String.[] h = refl
all_id_chars-slash (String.◌∷◌ c s) h = ground (arith, all_id_chars-slash s)

is_agent_id-segment : (id : String) → is_agent_id id ≡ true → split 47 id ≡ id ∷ []
unfolding is_agent_id
is_agent_id-segment id h = split_whole id (all_id_chars-slash id (ground arith))

private_path-is_agent_id :
    (p : PathPolicy) (path id : String)
    → private_path p path id ≡ granted true
    → is_agent_id id ≡ true
unfolding private_path
private_path-is_agent_id p path id h = elim (Option-cases (p.normalize path)) [
  | inl e ↦ absurd (ground arith)
  | inr (n, e) ↦ ground arith
]

-- An own file is where the rules put it.
accepted_private :
    (p : PathPolicy) (a : Actor) (owner : Option String) (x path : String)
    → write_by_visibility p a agent_private owner x ≡ granted path
    → (x ≡ path) × (private_path p x a.agent_id ≡ granted true)
unfolding write_by_visibility
accepted_private p a owner x path h = (ground arith, ground arith)

some_inj : (x y : String) → some x ≡ some y → x ≡ y
some_inj x y h = ground arith

private_root-split :
    (id rest : String)
    → is_agent_id id ≡ true
    → split 47 ((agent_private_root id +++ "/") +++ rest)
      ≡ ".sci-pegasus" ∷ "agents" ∷ id ∷ split 47 rest
unfolding agent_private_root split
private_root-split id rest h =
    let outer = append_assoc (".sci-pegasus/agents/" +++ id) "/" rest in
    let inner = append_assoc ".sci-pegasus/agents" "/" id in
    let below : split 47 (".sci-pegasus/agents" +++ ("/" +++ id))
        ≡ ".sci-pegasus" ∷ "agents" ∷ id ∷ [] =
      split-below ".sci-pegasus/agents" id
      ∙ ap (λ segments. ".sci-pegasus" ∷ "agents" ∷ segments) (is_agent_id-segment id h) in
    ap (λ t. split 47 t) outer
    ∙ split-below (".sci-pegasus/agents/" +++ id) rest
    ∙ ap (λ segments. segments ++ split 47 rest) (ap (λ t. split 47 t) inner ∙ below)

accepted_write :
    (p : PathPolicy) (a : Actor) (input path : String) (owner : Option String)
    → write_allowed p a input agent_private owner ≡ granted path
    → (p.write_path input ≡ some path)
      × (write_by_visibility p a agent_private owner path ≡ granted path)
unfolding write_allowed
accepted_write p a input path owner h = elim (Option-cases (p.write_path input)) [
  | inl e ↦ absurd (ground arith)
  | inr (x, e) ↦
      let w : write_by_visibility p a agent_private owner x ≡ granted path = ground arith in
      let (same, below) = accepted_private p a owner x path w in
      (
        e ∙ ap (λ t. some t) same,
        subst (λ t. write_by_visibility p a agent_private owner t ≡ granted path) same w,
      )
]

abbrev pub IsPlain : String → Type 0
IsPlain s = (s ≢ "") × (s ≢ ".") × (s ≢ "..")

is_unsafe_segment-IsPlain : (s : String) → is_unsafe_segment s ≡ false → IsPlain s
unfolding is_unsafe_segment
is_unsafe_segment-IsPlain s h = (
  λ e. ground (arith, eq_iff s ""),
  λ e. ground (arith, eq_iff s "."),
  λ e. ground (arith, eq_iff s ".."),
)

safe-IsPlain :
    (segments : List String) → exists is_unsafe_segment segments ≡ false → All IsPlain segments
safe-IsPlain [] h = tt
safe-IsPlain (s ∷ segments) h =
    (is_unsafe_segment-IsPlain s (ground arith), safe-IsPlain segments (ground arith))

-- A path whose segments are the three of the private root of the agent and others, none of them empty, `.` or
-- `..`, in a file that the agent owns.
pub record IsInOwnTree (a : Actor) (owner : Option String) (path : String) : Type 0 where
  pub owned : owner ≡ some a.agent_id
  pub rest : List String
  pub segments : split 47 path ≡ ".sci-pegasus" ∷ "agents" ∷ a.agent_id ∷ rest
  pub has_plain_segments : All IsPlain (split 47 path)

starts_with-segments :
    (id path : String)
    → is_agent_id id ≡ true
    → starts_with (agent_private_root id +++ "/") path ≡ true
    → (rest : List String) × (split 47 path ≡ ".sci-pegasus" ∷ "agents" ∷ id ∷ rest)
starts_with-segments id path h below =
    let (r, e) = starts_with-append (agent_private_root id +++ "/") path below in
    (split 47 r, ap (λ t. split 47 t) e ∙ private_root-split id r h)

-- With the path policy of the workspace, a private file that an actor is allowed to write lies in the
-- actor's own tree: its path, cut at the slashes, is .sci-pegasus, agents, the actor's id and further
-- segments, none of them empty, `.` or `..`, whatever text was asked for; and the actor owns the file. The
-- form NFC is any function for which the end of a normalised text is normalised.
pub private_write-segments :
    (u : Unicode) (a : Actor) (input path : String) (owner : Option String)
    → IsNormalization u
    → write_allowed (policy_of u) a input agent_private owner ≡ granted path
    → IsInOwnTree a owner path
private_write-segments u a input path owner n h =
    let (written, w) = accepted_write (policy_of u) a input path owner h in
    let own = write_by_visibility-IsOwnFile (policy_of u) a owner path path w in
    let (same, granted_private) = accepted_private (policy_of u) a owner path path w in
    let normal = write_path-normal u input path n written in
    let safe = normalize_path-IsSafePath u path path normal in
    let kept : own.normalized ≡ path =
      some_inj own.normalized path (sym own.is_normalized ∙ normal) in
    let below =
      subst (λ t. starts_with (agent_private_root a.agent_id +++ "/") t ≡ true) kept own.below in
    let (rest, segments) =
      starts_with-segments a.agent_id path
        (private_path-is_agent_id (policy_of u) path a.agent_id granted_private) below in
    record {
      owned = own.owned;
      rest = rest;
      segments = segments;
      has_plain_segments = safe-IsPlain (split 47 path) safe.has_safe_segments;
    }
