-- ===== src/Workspace/Acl.antt =====
-- lib/workspace/multi-agent/acl.ts: the access rules of a team's workspace. The path policy of
-- lib/workspace/path-policy.ts is an interface here.
pub mod Writes
pub mod Reads
pub mod Segments
use Prim.Native.Char.{code}
use Prim.Native.String.{◌++◌ as ◌+++◌}
use sci_pegasus.Common.Texts.{starts_with}
use sci_pegasus.Common.{
  ℕ, suc, ◌+◌, String, ◌==◌, Bool, true, false, ◌&&◌, ◌||◌, not, Option, none, some, List, [], ◌∷◌,
  leb, eqb, exists, if◌then◌else◌,
}

-- normalizeWorkspacePath and assertWorkspaceWritePath; `none` where they throw.
pub record PathPolicy : Type 0 where
  pub normalize : String → Option String
  pub write_path : String → Option String

pub data Role : Type 0 where
  root member : Role

pub data FileVisibility : Type 0 where
  public agent_private managed_reference : FileVisibility

-- WorkspaceActor. A missing list is empty, a missing flag false.
pub record Actor : Type 0 where
  pub team_id : String
  pub agent_id : String
  pub root_agent_id : String
  pub role : Role
  pub private_path_references : List String
  pub is_managed_reference_tool : Bool

-- What the rules read of a WorkspaceFileSnapshot.
pub record FileSnapshot : Type 0 where
  pub path : String
  pub visibility : FileVisibility
  pub owner_agent_id : Option String
  pub writer_team_id : String

pub data AclError : Type 0 where
  incomplete_identity role_mismatch other_team not_shared bad_path bad_agent_id : AclError
  not_managed_tool not_below_references has_owner not_root private_as_public : AclError
  other_owner not_below_private_root : AclError

pub data Verdict (A : Type 0) : Type 0 where
  granted : A → Verdict A
  denied : AclError → Verdict A

between : ℕ → ℕ → ℕ → Bool
between low high c = leb low c && leb c high

-- [A-Za-z0-9_-]
is_id_char : ℕ → Bool
unfolding between
is_id_char c = between 65 90 c || between 97 122 c || between 48 57 c || eqb c 95 || eqb c 45

all_id_chars : String → Bool
unfolding is_id_char
all_id_chars String.[] = true
all_id_chars (String.◌∷◌ c s) = is_id_char (code c) && all_id_chars s

char_count : String → ℕ
char_count String.[] = 0
char_count (String.◌∷◌ c s) = suc (char_count s)

-- AGENT_ID
unfoldable pub is_agent_id : String → Bool
unfolding all_id_chars char_count
is_agent_id id = all_id_chars id && leb 1 (char_count id) && leb (char_count id) 128

unfoldable pub agent_private_root : String → String
agent_private_root id = ".sci-pegasus/agents/" +++ id

unfoldable pub is_identity_complete : Actor → Bool
is_identity_complete a =
    not (a.team_id == "") && not (a.agent_id == "") && not (a.root_agent_id == "")

abbrev pub is_root : Role → Bool
is_root root = true
is_root member = false

-- The two tests on the role.
unfoldable pub is_role_right : Actor → Bool
is_role_right a =
    if is_root a.role then a.agent_id == a.root_agent_id else not (a.agent_id == a.root_agent_id)

abbrev pub is_private : FileVisibility → Bool
is_private agent_private = true
is_private _ = false

abbrev pub has_text : Option String → Bool
has_text none = false
has_text (some id) = not (id == "")

abbrev pub owns : Option String → String → Bool
owns none agent = false
owns (some owner) agent = owner == agent

-- Whether the set of the normalized references has a path; `none` where a reference is bad.
unfoldable pub shares : PathPolicy → List String → String → Option Bool
shares p [] path = some false
shares p (ref ∷ refs) path =
    let rest = shares p refs path in
    elim (p.normalize ref) [
      | none ↦ none
      | some shared ↦ elim rest [ none ↦ none | some found ↦ some (shared == path || found) ]
    ]

unfoldable pub granted_path : PathPolicy → List String → String → Verdict (Unit {0})
unfolding shares
granted_path p refs path = elim (p.normalize path) [
  | none ↦ denied bad_path
  | some normalized ↦ elim (shares p refs normalized) [
    | none ↦ denied bad_path
    | some found ↦ if found then granted tt else denied not_shared
  ]
]

-- assertWorkspaceReadAllowed, the tests of assertWorkspaceActor first
unfoldable pub read_allowed : PathPolicy → Actor → FileSnapshot → Verdict (Unit {0})
unfolding is_identity_complete is_role_right granted_path
read_allowed p a file =
    if not (is_identity_complete a)
    then denied incomplete_identity
    else if not (is_role_right a)
    then denied role_mismatch
    else if not (a.team_id == file.writer_team_id)
    then denied other_team
    else if is_root a.role || not (is_private file.visibility)
    then granted tt
    else if owns file.owner_agent_id a.agent_id
    then granted tt
    else granted_path p a.private_path_references file.path

-- isAgentPrivatePath
unfoldable pub private_path : PathPolicy → String → String → Verdict Bool
unfolding starts_with is_agent_id agent_private_root
private_path p path agent = elim (p.normalize path) [
  | none ↦ denied bad_path
  | some normalized ↦
      if is_agent_id agent
      then granted (starts_with (agent_private_root agent +++ "/") normalized)
      else denied bad_agent_id
]

-- The rules for a path that the policy accepts.
unfoldable pub write_by_visibility :
    PathPolicy → Actor → FileVisibility → Option String → String → Verdict String
unfolding private_path starts_with
write_by_visibility p a managed_reference owner path =
    if not a.is_managed_reference_tool
    then denied not_managed_tool
    else if not (starts_with "references/" path)
    then denied not_below_references
    else if has_text owner
    then denied has_owner
    else granted path
write_by_visibility p a public owner path =
    if not (is_root a.role)
    then denied not_root
    else if starts_with ".sci-pegasus/agents/" path
    then denied private_as_public
    else if has_text owner
    then denied has_owner
    else granted path
write_by_visibility p a agent_private owner path =
    if not (owns owner a.agent_id)
    then denied other_owner
    else elim (private_path p path a.agent_id) [
      | denied e ↦ denied e
      | granted below ↦ if below then granted path else denied not_below_private_root
    ]

-- assertWorkspaceWriteAllowed
unfoldable pub write_allowed :
    PathPolicy → Actor → String → FileVisibility → Option String → Verdict String
unfolding is_identity_complete is_role_right write_by_visibility
write_allowed p a input visibility owner =
    if not (is_identity_complete a)
    then denied incomplete_identity
    else if not (is_role_right a)
    then denied role_mismatch
    else elim (p.write_path input) [
      | none ↦ denied bad_path
      | some path ↦ write_by_visibility p a visibility owner path
    ]
