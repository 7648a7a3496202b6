-- ===== src/Workspace/Acl/Reads.antt =====
-- Who may read what was written.
use sci_pegasus.Common.{
  ◌≡◌, ◌≢◌, refl, sym, ◌∙◌, Bool-cases, String, ◌==◌, eq_iff, eq_refl, true, false, Option, none,
  some, [], arith, Option-cases, inl, inr,
}
use sci_pegasus.Workspace.Acl.{
  PathPolicy, Actor, member, FileVisibility, public, agent_private, managed_reference, FileSnapshot,
  granted, read_allowed, granted_path, shares, write_allowed, write_by_visibility,
  is_identity_complete, is_role_right, owns,
}
use sci_pegasus.Workspace.Acl.Writes.{accepted_path}

-- The file that an allowed write commits.
abbrev pub written : Actor → String → FileVisibility → Option String → FileSnapshot
written a path v owner = record {
  path = path;
  visibility = v;
  owner_agent_id = owner;
  writer_team_id = a.team_id;
}

-- What an allowed write says of its actor.
allowed_actor :
    (p : PathPolicy) (a : Actor) (input path : String) (v : FileVisibility) (owner : Option String)
    → write_allowed p a input v owner ≡ granted path
    → (is_identity_complete a ≡ true) × (is_role_right a ≡ true)
unfolding write_allowed
allowed_actor p a input path v owner h = (ground arith, ground arith)

-- It is the owner of a private file, and the Root for a public one.
allowed_owner :
    (p : PathPolicy) (a : Actor) (x path : String) (owner : Option String)
    → write_by_visibility p a agent_private owner x ≡ granted path
    → owns owner a.agent_id ≡ true
unfolding write_by_visibility
allowed_owner p a x path owner h = ground arith

owns-other :
    (owner : Option String) (a b : String) → owns owner a ≡ true → b ≢ a → owns owner b ≡ false
owns-other none a b h ne = refl
owns-other (some o) a b h ne = elim (Bool-cases (o == b)) [
  | inl e ↦ absurd (ne (sym ((eq_iff o b).0 e) ∙ (eq_iff o a).0 h))
  | inr e ↦ e
]

nothing_shared : (p : PathPolicy) (path : String) → granted_path p [] path ≢ granted tt
unfolding granted_path shares
nothing_shared p path g = elim (Option-cases (p.normalize path)) [
  | inl e ↦ ground arith
  | inr (n, e) ↦ ground arith
]

private_unread :
    (p : PathPolicy) (b : Actor) (file : FileSnapshot)
    → file.visibility ≡ agent_private
    → b.role ≡ member
    → owns file.owner_agent_id b.agent_id ≡ false
    → b.private_path_references ≡ []
    → read_allowed p b file ≢ granted tt
unfolding read_allowed
private_unread p b file v m o refs g = nothing_shared p file.path (rw (← refs) (ground arith))

-- An actor may read every file that it was allowed to write, and where the file is private a member
-- with another id, with which no path was shared, may not read it.
pub written_readable :
    (p : PathPolicy) (a b : Actor) (input path : String) (v : FileVisibility)
    (owner : Option String)
    → write_allowed p a input v owner ≡ granted path
    → b.role ≡ member
    → b.agent_id ≢ a.agent_id
    → b.private_path_references ≡ []
    → (read_allowed p a (written a path v owner) ≡ granted tt)
      × (v ≡ agent_private → read_allowed p b (written a path v owner) ≢ granted tt)
unfolding read_allowed
written_readable p a b input path managed_reference owner h m ne refs =
    let (i, r) = allowed_actor p a input path managed_reference owner h in
    (ground (arith, eq_refl a.team_id), λ e. absurd (ground arith))
written_readable p a b input path public owner h m ne refs =
    let (i, r) = allowed_actor p a input path public owner h in
    (ground (arith, eq_refl a.team_id), λ e. absurd (ground arith))
written_readable p a b input path agent_private owner h m ne refs =
    let (i, r) = allowed_actor p a input path agent_private owner h in
    let (x, w) = accepted_path p a input path agent_private owner h in
    let o = allowed_owner p a x path owner w in
    (
      ground (arith, eq_refl a.team_id),
      λ e.
          private_unread p b (written a path agent_private owner) refl m
            (owns-other owner a.agent_id b.agent_id o ne) refs,
    )
