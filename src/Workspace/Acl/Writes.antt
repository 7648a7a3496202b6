-- ===== src/Workspace/Acl/Writes.antt =====
-- Where a member may write.
use Prim.Native.String.{◌++◌ as ◌+++◌}
use sci_pegasus.Common.{
  ◌≡◌, refl, String, eq_iff, true, Option, none, some, ◌⊎◌, inl, inr, arith, Option-cases,
}
use sci_pegasus.Common.Texts.{starts_with}
use sci_pegasus.Workspace.Acl.{
  PathPolicy, Actor, member, FileVisibility, public, agent_private, managed_reference, granted,
  agent_private_root, write_allowed, write_by_visibility, private_path,
}

-- A managed reference, which only a trusted tool commits.
pub record IsReference (a : Actor) (v : FileVisibility) (path : String) : Type 0 where
  pub kind : v ≡ managed_reference
  pub trusted : a.is_managed_reference_tool ≡ true
  pub below : starts_with "references/" path ≡ true

-- A file of the actor's own private workspace.
pub record IsOwnFile (p : PathPolicy) (a : Actor) (v : FileVisibility) (owner : Option String)
    (path : String) : Type 0 where
  pub kind : v ≡ agent_private
  pub owned : owner ≡ some a.agent_id
  pub normalized : String
  pub is_normalized : p.normalize path ≡ some normalized
  pub below : starts_with (agent_private_root a.agent_id +++ "/") normalized ≡ true

pub accepted_path :
    (p : PathPolicy) (a : Actor) (input path : String) (v : FileVisibility) (owner : Option String)
    → write_allowed p a input v owner ≡ granted path
    → (accepted : String) × (write_by_visibility p a v owner accepted ≡ granted path)
unfolding write_allowed
accepted_path p a input path v owner h = elim (Option-cases (p.write_path input)) [
  | inl e ↦ absurd (ground arith)
  | inr (x, e) ↦ (x, ground arith)
]

write_by_visibility-IsReference :
    (p : PathPolicy) (a : Actor) (owner : Option String) (x path : String)
    → write_by_visibility p a managed_reference owner x ≡ granted path
    → IsReference a managed_reference path
unfolding write_by_visibility
write_by_visibility-IsReference p a owner x path h = record {
  kind = refl;
  trusted = ground arith;
  below = ground arith;
}

pub write_by_visibility-IsOwnFile :
    (p : PathPolicy) (a : Actor) (owner : Option String) (x path : String)
    → write_by_visibility p a agent_private owner x ≡ granted path
    → IsOwnFile p a agent_private owner path
unfolding write_by_visibility private_path
write_by_visibility-IsOwnFile p a none x path h = absurd (ground arith)
write_by_visibility-IsOwnFile p a (some o) x path h = elim (Option-cases (p.normalize x)) [
  | inl e ↦ absurd (ground arith)
  | inr (n, e) ↦ record {
    kind = refl;
    owned = ground (arith, eq_iff o a.agent_id);
    normalized = n;
    is_normalized = ground arith;
    below = ground arith;
  }
]

-- Whatever path a member asks for, under any path policy, a write that is allowed is either a managed
-- reference, by the trusted tool and below references/, or a file that the member itself owns and
-- that stands below its own private root. It is never a public file.
pub member_write_confined :
    (p : PathPolicy) (a : Actor) (input path : String) (v : FileVisibility) (owner : Option String)
    → a.role ≡ member
    → write_allowed p a input v owner ≡ granted path
    → IsReference a v path ⊎ IsOwnFile p a v owner path
unfolding write_by_visibility
member_write_confined p a input path managed_reference owner m h =
    let (x, w) = accepted_path p a input path managed_reference owner h in
    inl (write_by_visibility-IsReference p a owner x path w)
member_write_confined p a input path agent_private owner m h =
    let (x, w) = accepted_path p a input path agent_private owner h in
    inr (write_by_visibility-IsOwnFile p a owner x path w)
member_write_confined p a input path public owner m h =
    let (x, w) = accepted_path p a input path public owner h in absurd (ground arith)
