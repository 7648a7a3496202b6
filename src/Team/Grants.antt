-- ===== src/Team/Grants.antt =====
-- lib/agent-team/policy.ts: capabilities, delegation grants and budget ceilings.
pub mod Authority
use sci_pegasus.Common.{ℕ, String, Bool, true, false, ◌&&◌, Option, none, some, List, [], ◌∷◌, leb}

pub record Capabilities : Type 0 where
  pub is_coordinator : Bool
  pub can_create_agents : Bool
  pub can_delegate_tasks : Bool
  pub can_message_agents : Bool
  pub can_inspect_team : Bool
  pub can_wait_for_agents : Bool
  pub can_submit_results : Bool
  pub can_review_results : Bool
  pub can_manage_agents : Bool
  pub can_read_public_workspace : Bool
  pub can_write_private_workspace : Bool
  pub can_publish_references : Bool
  pub can_ask_user : Bool

-- Partial<AgentGrantCapabilities>: `none` is a key that is not given.
pub record CapabilityRequest : Type 0 where
  pub is_coordinator : Option Bool
  pub can_create_agents : Option Bool
  pub can_delegate_tasks : Option Bool
  pub can_message_agents : Option Bool
  pub can_inspect_team : Option Bool
  pub can_wait_for_agents : Option Bool
  pub can_submit_results : Option Bool
  pub can_review_results : Option Bool
  pub can_manage_agents : Option Bool
  pub can_read_public_workspace : Option Bool
  pub can_write_private_workspace : Option Bool
  pub can_publish_references : Option Bool
  pub can_ask_user : Option Bool

-- Costs are counted in units of 10⁻¹² USD, to which budgetCostUsdFromCents rounds.
pub record Budget : Type 0 where
  pub max_tokens : Option ℕ
  pub max_cost_usd : Option ℕ
  pub max_tool_calls : Option ℕ
  pub max_download_bytes : Option ℕ

pub record Grant : Type 0 where
  pub capabilities : Capabilities
  pub allowed_tool_names : List String
  pub allowed_read_paths : List String
  pub budget : Option Budget

-- The overrides of memberDelegationGrant.
pub record GrantRequest : Type 0 where
  pub capabilities : Option CapabilityRequest
  pub allowed_tool_names : Option (List String)
  pub allowed_read_paths : Option (List String)
  pub budget : Option Budget

abbrev pub root_capabilities : Capabilities
root_capabilities = record {
  is_coordinator = true;
  can_create_agents = true;
  can_delegate_tasks = true;
  can_message_agents = true;
  can_inspect_team = true;
  can_wait_for_agents = true;
  can_submit_results = true;
  can_review_results = true;
  can_manage_agents = true;
  can_read_public_workspace = true;
  can_write_private_workspace = true;
  can_publish_references = true;
  can_ask_user = true;
}

abbrev pub member_capabilities : Capabilities
member_capabilities = record {
  is_coordinator = false;
  can_create_agents = false;
  can_delegate_tasks = false;
  can_message_agents = true;
  can_inspect_team = true;
  can_wait_for_agents = true;
  can_submit_results = true;
  can_review_results = false;
  can_manage_agents = false;
  can_read_public_workspace = true;
  can_write_private_workspace = true;
  can_publish_references = false;
  can_ask_user = false;
}

-- value ?? default
abbrev pub given_or {ℓ} : {A : Type ℓ} → A → Option A → A
given_or d none = d
given_or d (some a) = a

abbrev no_request : CapabilityRequest
no_request = record {
  is_coordinator = none;
  can_create_agents = none;
  can_delegate_tasks = none;
  can_message_agents = none;
  can_inspect_team = none;
  can_wait_for_agents = none;
  can_submit_results = none;
  can_review_results = none;
  can_manage_agents = none;
  can_read_public_workspace = none;
  can_write_private_workspace = none;
  can_publish_references = none;
  can_ask_user = none;
}

-- { ...MEMBER_CAPABILITIES, ...requested }
override : CapabilityRequest → Capabilities → Capabilities
override r c = record {
  is_coordinator = given_or c.is_coordinator r.is_coordinator;
  can_create_agents = given_or c.can_create_agents r.can_create_agents;
  can_delegate_tasks = given_or c.can_delegate_tasks r.can_delegate_tasks;
  can_message_agents = given_or c.can_message_agents r.can_message_agents;
  can_inspect_team = given_or c.can_inspect_team r.can_inspect_team;
  can_wait_for_agents = given_or c.can_wait_for_agents r.can_wait_for_agents;
  can_submit_results = given_or c.can_submit_results r.can_submit_results;
  can_review_results = given_or c.can_review_results r.can_review_results;
  can_manage_agents = given_or c.can_manage_agents r.can_manage_agents;
  can_read_public_workspace = given_or c.can_read_public_workspace r.can_read_public_workspace;
  can_write_private_workspace =
      given_or c.can_write_private_workspace r.can_write_private_workspace;
  can_publish_references = given_or c.can_publish_references r.can_publish_references;
  can_ask_user = given_or c.can_ask_user r.can_ask_user;
}

unfoldable pub root_delegation_grant : Grant
root_delegation_grant = record {
  capabilities = root_capabilities;
  allowed_tool_names = "*" ∷ [];
  allowed_read_paths = "**" ∷ [];
  budget = none;
}

unfoldable pub member_delegation_grant : GrantRequest → Grant
unfolding override
member_delegation_grant overrides =
    let requested = given_or no_request overrides.capabilities in
    record {
      capabilities = record (override requested member_capabilities) {
        is_coordinator = false;
        can_create_agents = false;
        can_review_results = false;
        can_manage_agents = false;
        can_ask_user = false;
      };
      allowed_tool_names = given_or [] overrides.allowed_tool_names;
      allowed_read_paths = given_or [] overrides.allowed_read_paths;
      budget = overrides.budget;
    }

-- requested === undefined || allowed === undefined || requested <= allowed
abbrev within : Option ℕ → Option ℕ → Bool
within none allowed = true
within (some r) none = true
within (some r) (some a) = leb r a

unfoldable pub is_budget_within : Option Budget → Option Budget → Bool
is_budget_within none ceiling = true
is_budget_within (some child) none = true
is_budget_within (some child) (some ceiling) =
    within child.max_tokens ceiling.max_tokens
    && within child.max_cost_usd ceiling.max_cost_usd
    && within child.max_tool_calls ceiling.max_tool_calls
    && within child.max_download_bytes ceiling.max_download_bytes
