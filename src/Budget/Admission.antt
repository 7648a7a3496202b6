-- ===== src/Budget/Admission.antt =====
-- The filter of the atomic reservation and the report of an exhausted budget agree.
use sci_pegasus.Common.{
  ◌≡◌, ◌≢◌, ◌↔◌, refl, sym, ◌∙◌, String, Bool, true, false, ◌&&◌, if◌then◌else◌, Option-cases,
  Option, none, some, List, arith, inl, inr,
}
use sci_pegasus.Team.Grants.{Budget}
use sci_pegasus.Budget.Usage.{
  Totals, CallKind, ScopeUsage, exhausted_budget, exhausted_budget_scope,
}
use sci_pegasus.Budget.Documents.{Context, State, truthy}
use sci_pegasus.Budget.Updates.{
  Scopes, ReserveInput, reserve_filter, budget_expressions, within_budgets,
}
use sci_pegasus.Budget.Scopes.{Used, usage_for_scope, scope_list, scopes_from_state}

-- One scope.
expressions→open :
    (b : Option Budget) (u : Totals) (kind : CallKind)
    → budget_expressions b u kind ≡ true
    → exhausted_budget b u kind ≡ none
unfolding budget_expressions exhausted_budget
expressions→open none u kind h = refl
expressions→open (some b) u kind h = ground arith

open→expressions :
    (b : Option Budget) (u : Totals) (kind : CallKind)
    → exhausted_budget b u kind ≡ none
    → budget_expressions b u kind ≡ true
unfolding budget_expressions exhausted_budget
open→expressions none u kind h = refl
open→expressions (some b) u kind h = ground arith

-- The tests of the filter, over the counters that the error path has read.
abbrev tests : Scopes → CallKind → Used → Bool
tests b kind u =
    budget_expressions b.team_budget u.team_used kind
    && budget_expressions b.agent_budget u.agent_used kind
    && (if b.has_task then budget_expressions b.task_budget u.task_used kind else true)

tests→open :
    (b : Scopes) (kind : CallKind) (u : Used)
    → tests b kind u ≡ true
    → exhausted_budget_scope (scope_list b u) kind ≡ none
unfolding exhausted_budget_scope scope_list
tests→open b kind u h = ground (
  arith,
  expressions→open b.team_budget u.team_used kind,
  expressions→open b.agent_budget u.agent_used kind,
  expressions→open b.task_budget u.task_used kind,
)

open→tests :
    (b : Scopes) (kind : CallKind) (u : Used)
    → exhausted_budget_scope (scope_list b u) kind ≡ none
    → tests b kind u ≡ true
unfolding exhausted_budget_scope scope_list
open→tests b kind u h = ground (
  arith,
  open→expressions b.team_budget u.team_used kind,
  open→expressions b.agent_budget u.agent_used kind,
  open→expressions b.task_budget u.task_used kind,
)

within-tests :
    (k : String → String) (s : State) (c : Context) (b : Scopes) (kind : CallKind) (u : Used)
    → usage_for_scope k s c ≡ some u
    → (b.has_task ≡ true → truthy c.task_id ≢ none)
    → within_budgets k c b kind s ≡ tests b kind u
unfolding usage_for_scope within_budgets
within-tests k s c b kind u e t = elim (Option-cases (s.agent_usage (k c.agent_id))) [
  | inl fresh ↦ ground arith
  | inr (a, known) ↦ elim (Option-cases (truthy c.task_id)) [
    | inl no_task ↦ ground arith
    | inr (id, has) ↦ ground arith
  ]
]

scopes-Used :
    (k : String → String) (s : State) (c : Context) (b : Scopes) (items : List ScopeUsage)
    → scopes_from_state k s c b ≡ some items
    → (u : Used) × (usage_for_scope k s c ≡ some u) × (items ≡ scope_list b u)
unfolding scopes_from_state
scopes-Used k s c b items e = elim (Option-cases (usage_for_scope k s c)) [
  | inl crash ↦ ground arith
  | inr (u, read) ↦ (u, read, ground arith)
]

pub budgets_agree :
    (k : String → String) (s : State) (c : Context) (b : Scopes) (kind : CallKind)
    (items : List ScopeUsage)
    → scopes_from_state k s c b ≡ some items
    → (b.has_task ≡ true → truthy c.task_id ≢ none)
    → (within_budgets k c b kind s ≡ true) ↔ (exhausted_budget_scope items kind ≡ none)
budgets_agree k s c b kind items e t =
    let (u, read, listed) = scopes-Used k s c b items e in
    let same = within-tests k s c b kind u read t in
    (
      λ h. rw listed (tests→open b kind u (sym same ∙ h)),
      λ h. same ∙ open→tests b kind u (rw listed at h),
    )

-- Without the budgets' gates, the filter asks for the right document and for a free reservation key.
abbrev pub ungated : ReserveInput → ReserveInput
ungated i = record i { bypass_budget_gates = true }

reserve_filter-gated :
    (k : String → String) (s : State) (i : ReserveInput)
    → i.bypass_budget_gates ≡ false
    → reserve_filter k (ungated i) s ≡ true
    → reserve_filter k i s ≡ within_budgets k i.context i.budgets i.kind s
unfolding reserve_filter
reserve_filter-gated k s i gated free = ground arith

-- For a reservation that does not bypass the budgets, that the filter would let pass if it did, that has a
-- task if a task budget was loaded, and whose scopes all have counters that the report can read (a new agent
-- or task has none): the whole filter of the atomic reservation lets it pass exactly when the report finds
-- no exhausted budget in any scope.
pub admission_agrees :
    (k : String → String) (s : State) (i : ReserveInput) (items : List ScopeUsage)
    → i.bypass_budget_gates ≡ false
    → reserve_filter k (ungated i) s ≡ true
    → (i.budgets.has_task ≡ true → truthy i.context.task_id ≢ none)
    → scopes_from_state k s i.context i.budgets ≡ some items
    → (reserve_filter k i s ≡ true) ↔ (exhausted_budget_scope items i.kind ≡ none)
admission_agrees k s i items gated free t e =
    let same = reserve_filter-gated k s i gated free in
    let agree = budgets_agree k s i.context i.budgets i.kind items e t in
    (λ h. agree.0 (sym same ∙ h), λ h. same ∙ agree.1 h)
