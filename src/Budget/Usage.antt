-- ===== src/Budget/Usage.antt =====
-- lib/agent-team/execution-budget.ts: usage counters and the test for an exhausted budget. Costs are
-- counted in units of 10⁻¹² USD.
use sci_pegasus.Common.{
  ℕ, ◌+◌, Bool, true, false, Option, none, some, List, [], ◌∷◌, leb, if◌then◌else◌,
}
use sci_pegasus.Team.Grants.{Budget}

-- number | undefined: what finiteNonNegative tells apart.
pub data Amount : Type 0 where
  missing not_finite negative : Amount
  finite : ℕ → Amount

unfoldable pub finite_non_negative : Amount → ℕ
finite_non_negative (finite n) = n
finite_non_negative other = 0

-- AgentExecutionUsageDelta
pub record Delta : Type 0 where
  pub input_tokens : Amount
  pub output_tokens : Amount
  pub cache_creation_input_tokens : Amount
  pub cache_read_input_tokens : Amount
  pub cost_usd : Amount
  pub tool_calls : Amount
  pub download_bytes : Amount

-- AgentExecutionUsageTotals
pub record Totals : Type 0 where
  pub input_tokens : ℕ
  pub output_tokens : ℕ
  pub cache_creation_input_tokens : ℕ
  pub cache_read_input_tokens : ℕ
  pub cost_usd : ℕ
  pub tool_calls : ℕ
  pub download_bytes : ℕ

abbrev pub zero_totals : Totals
zero_totals = record {
  input_tokens = 0;
  output_tokens = 0;
  cache_creation_input_tokens = 0;
  cache_read_input_tokens = 0;
  cost_usd = 0;
  tool_calls = 0;
  download_bytes = 0;
}

unfoldable pub normalized_delta : Delta → Totals
unfolding finite_non_negative
normalized_delta d = record {
  input_tokens = finite_non_negative d.input_tokens;
  output_tokens = finite_non_negative d.output_tokens;
  cache_creation_input_tokens = finite_non_negative d.cache_creation_input_tokens;
  cache_read_input_tokens = finite_non_negative d.cache_read_input_tokens;
  cost_usd = finite_non_negative d.cost_usd;
  tool_calls = finite_non_negative d.tool_calls;
  download_bytes = finite_non_negative d.download_bytes;
}

unfoldable pub add_usage : Totals → Totals → Totals
add_usage a b = record {
  input_tokens = a.input_tokens + b.input_tokens;
  output_tokens = a.output_tokens + b.output_tokens;
  cache_creation_input_tokens = a.cache_creation_input_tokens + b.cache_creation_input_tokens;
  cache_read_input_tokens = a.cache_read_input_tokens + b.cache_read_input_tokens;
  cost_usd = a.cost_usd + b.cost_usd;
  tool_calls = a.tool_calls + b.tool_calls;
  download_bytes = a.download_bytes + b.download_bytes;
}

unfoldable pub total_execution_tokens : Totals → ℕ
total_execution_tokens u =
    u.input_tokens + u.output_tokens + u.cache_creation_input_tokens + u.cache_read_input_tokens

pub data CallKind : Type 0 where
  model compaction tool : CallKind

pub data Dimension : Type 0 where
  tokens cost_usd tool_calls download_bytes : Dimension

pub record Exhausted : Type 0 where
  pub dimension : Dimension
  pub limit : ℕ
  pub used : ℕ

-- budget.max !== undefined && used >= budget.max
over : Dimension → Option ℕ → ℕ → Option Exhausted
over d none used = none
over d (some limit) used =
    if leb limit used then some (record { dimension = d; limit = limit; used = used }) else none

-- The first of two tests that reports.
abbrev pub or_else {ℓ} : {A : Type ℓ} → Option A → Option A → Option A
or_else none b = b
or_else (some a) b = some a

abbrev pub is_tool : CallKind → Bool
is_tool tool = true
is_tool model = false
is_tool compaction = false

exhausted_limits : Budget → Totals → CallKind → Option Exhausted
unfolding over total_execution_tokens
exhausted_limits b u kind =
    or_else (over Dimension.tokens b.max_tokens (total_execution_tokens u)) (
      or_else (over Dimension.cost_usd b.max_cost_usd u.cost_usd) (
        if is_tool kind
        then or_else (over Dimension.tool_calls b.max_tool_calls u.tool_calls)
            (over Dimension.download_bytes b.max_download_bytes u.download_bytes)
        else none))

unfoldable pub exhausted_budget : Option Budget → Totals → CallKind → Option Exhausted
unfolding exhausted_limits
exhausted_budget none u kind = none
exhausted_budget (some b) u kind = exhausted_limits b u kind

pub data Scope : Type 0 where
  team agent task : Scope

pub record ScopeUsage : Type 0 where
  pub scope : Scope
  pub budget : Option Budget
  pub usage : Totals

abbrev at_scope : Scope → Option Exhausted → Option (Scope × Exhausted)
at_scope s none = none
at_scope s (some e) = some (s, e)

unfoldable pub exhausted_budget_scope : List ScopeUsage → CallKind → Option (Scope × Exhausted)
unfolding exhausted_budget
exhausted_budget_scope [] kind = none
exhausted_budget_scope (item ∷ items) kind =
    or_else (at_scope item.scope (exhausted_budget item.budget item.usage kind))
      (exhausted_budget_scope items kind)
