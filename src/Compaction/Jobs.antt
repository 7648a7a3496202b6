-- ===== src/Compaction/Jobs.antt =====
-- lib/agent-compaction/types.ts and the filters of repository.ts. A time is a number of milliseconds; a
-- field that is null or missing is `none`, a missing status_revision 0.
use Prim.Native.String.{◌++◌ as ◌+++◌}
use sci_pegasus.Common.{
  ℕ, String, ◌==◌, Bool, true, false, ◌&&◌, ◌||◌, not, Option, none, some, List, leb, ltb, eqb,
  exists,
}

-- DurableCompactionStatus
pub data Status : Type 0 where
  queued summarizing summary_ready merge_prepared retryable : Status
  merged failed cancelled superseded : Status

-- CompactionContextOwner
pub data Owner : Type 0 where
  conversation : (conversation_id user_id : String) → Owner
  agent_session : (session_id conversation_id user_id : String) → Owner

-- DurableCompactionLease
pub record Lease : Type 0 where
  pub owner_id : String
  pub fence_token : String
  pub heartbeat_at : ℕ
  pub expires_at : ℕ

-- DurableCompactionSourceTurnGuard
pub record Guard : Type 0 where
  pub token : String
  pub owner_id : String
  pub source_run_id : String
  pub heartbeat_at : ℕ
  pub expires_at : ℕ

-- DurableCompactionStatusOutboxEntry, without its delivery
pub record Entry : Type 0 where
  pub revision : ℕ
  pub status : Status
  pub attempt : ℕ

-- DurableCompactionJobRecord; the newest entry of the outbox comes first.
pub record Job : Type 0 where
  pub job_id : String
  pub owner : Owner
  pub owner_key : String
  pub source_run_id : Option String
  pub idempotency_key : String
  pub idempotency_keys : List String
  pub prefix_hash : String
  pub status : Status
  pub status_revision : ℕ
  pub status_outbox : List Entry
  pub active_key : Option String
  pub summary : Option String
  pub replacement_hash : Option String
  pub merged_context_revision : Option ℕ
  pub runtime_settled_at : Option ℕ
  pub attempt : ℕ
  pub lease : Option Lease
  pub source_turn_guard : Option Guard
  pub available_at : Option ℕ
  pub last_error : Option String
  pub finished_at : Option ℕ

-- The statuses that may be claimed
abbrev pub is_active : Status → Bool
is_active queued = true
is_active summarizing = true
is_active summary_ready = true
is_active merge_prepared = true
is_active retryable = true
is_active merged = false
is_active failed = false
is_active cancelled = false
is_active superseded = false

abbrev pub status_code : Status → ℕ
status_code queued = 0
status_code summarizing = 1
status_code summary_ready = 2
status_code merge_prepared = 3
status_code retryable = 4
status_code merged = 5
status_code failed = 6
status_code cancelled = 7
status_code superseded = 8

abbrev pub has_status : Status → Status → Bool
has_status a b = eqb (status_code a) (status_code b)

-- PREPARE_SAFE_TERMINATION_STATUSES
abbrev pub is_cancellable : Status → Bool
is_cancellable s = is_active s && not (has_status merge_prepared s)

-- compactionOwnerKey
unfoldable pub compaction_owner_key : Owner → String
compaction_owner_key (conversation id user) = "conversation:" +++ id
compaction_owner_key (agent_session id conversation_id user) = "agent_session:" +++ id

unfoldable pub same_owner : Owner → Owner → Bool
same_owner (conversation a u) (conversation b v) = a == b && u == v
same_owner (conversation a u) (agent_session t b v) = false
same_owner (agent_session s a u) (conversation b v) = false
same_owner (agent_session s a u) (agent_session t b v) = s == t && a == b && u == v

-- The identity that a command names.
pub record Command : Type 0 where
  pub job_id : String
  pub owner : Owner
  pub idempotency_key : String

-- commandIdentityFilter
unfoldable pub is_commanded : Command → Job → Bool
unfolding same_owner compaction_owner_key
is_commanded c j =
    j.job_id == c.job_id
    && j.owner_key == compaction_owner_key c.owner
    && same_owner c.owner j.owner
    && exists (λ key. key == c.idempotency_key) j.idempotency_keys

-- What a source turn names; the texts are trimmed.
pub record Turn : Type 0 where
  pub command : Command
  pub source_run_id : String
  pub guard_owner_id : String

abbrev pub is_text : String → Option String → Bool
is_text s none = false
is_text s (some t) = t == s

-- sourceTurnCommandIdentityFilter
unfoldable pub is_source_turn : Turn → Job → Bool
unfolding is_commanded
is_source_turn t j =
    is_commanded t.command j
    && j.idempotency_key == t.command.idempotency_key
    && is_text t.source_run_id j.source_run_id

-- unleasedCompactionFilter
abbrev pub is_unleased : Option Lease → Bool
is_unleased none = true
is_unleased (some l) = false

abbrev pub is_free : ℕ → Option Lease → Bool
is_free now none = true
is_free now (some l) = leb l.expires_at now

-- noLiveSourceTurnGuardFilter
abbrev pub has_no_live_guard : ℕ → Option Guard → Bool
has_no_live_guard now none = true
has_no_live_guard now (some g) = leb g.expires_at now

-- sourceTurnGuardCommandFilter; a token that is blank is not given
abbrev pub guard_permits : ℕ → Option String → Option Guard → Bool
guard_permits now token none = true
guard_permits now token (some g) = leb g.expires_at now || is_text g.token token

-- The claim of a worker
pub record Claim : Type 0 where
  pub job_id : String
  pub owner_id : String
  pub fence_token : String

abbrev pub is_held : Claim → Option Lease → Bool
is_held c none = false
is_held c (some l) = l.owner_id == c.owner_id && l.fence_token == c.fence_token

abbrev pub is_held_live : ℕ → Claim → Option Lease → Bool
is_held_live now c none = false
is_held_live now c (some l) =
    l.owner_id == c.owner_id && l.fence_token == c.fence_token && ltb now l.expires_at

-- liveJobLeaseFilter, for statuses that `allowed` tests
unfoldable pub is_live : ℕ → Claim → (Status → Bool) → Job → Bool
is_live now c allowed j = j.job_id == c.job_id && allowed j.status && is_held_live now c j.lease

abbrev pub is_available : ℕ → Option ℕ → Bool
is_available now none = true
is_available now (some at) = leb at now

abbrev pub is_later : ℕ → Option ℕ → Bool
is_later now none = false
is_later now (some at) = ltb now at

abbrev pub is_given {ℓ} : {A : Type ℓ} → Option A → Bool
is_given none = false
is_given (some a) = true
