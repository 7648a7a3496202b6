-- ===== src/Budget/Diagnosis.antt =====
-- lib/agent-team/execution-budget.ts: assertCanCall and the filter of the atomic reservation.
use sci_pegasus.Common.{
  ℕ, String, ◌≡◌, ◌≢◌, ◌↔◌, refl, sym, ap, ◌∙◌, true, Option, none, some, List, arith, eq_iff,
  Option-cases, inl, inr,
}
use sci_pegasus.Mongo.{Mongo}
use sci_pegasus.Budget.Usage.{CallKind, ScopeUsage, exhausted_budget_scope}
use sci_pegasus.Budget.Documents.{Context, State, truthy}
use sci_pegasus.Budget.Updates.{Scopes, within_budgets}
use sci_pegasus.Budget.Scopes.{scopes_from_state}
use sci_pegasus.Budget.Receipts.{Ledger, Result, ok, err, type_error, budget_exceeded}
use sci_pegasus.Budget.Fence.{Validator, ScopeReads, entry, fence_valid, load_budget_scopes}
use sci_pegasus.Budget.Calls.{Texts, Request}
use sci_pegasus.Budget.Reserving.{assert_can_call}
use sci_pegasus.Budget.Admission.{budgets_agree}

-- A task budget is loaded only for a call that has a task.
has_task_context :
    (c : Context) (reads : ScopeReads) (b : Scopes)
    → load_budget_scopes c reads ≡ ok b
    → b.has_task ≡ true
    → truthy c.task_id ≢ none
unfolding load_budget_scopes
has_task_context c reads b h t n = ground arith

-- What the check answers to the scopes that it reads.
abbrev check_answer : CallKind → Option (List ScopeUsage) → Result (Unit {0})
check_answer kind none = err type_error
check_answer kind (some items) = elim (exhausted_budget_scope items kind) [
  | none ↦ ok tt
  | some (scope, e) ↦ err (budget_exceeded scope e)
]

module _ (m : Mongo) (k : String → String) (t : Texts) (v : Validator) (now : ℕ) (q : Request)
    (l : Ledger) (s : State) (b : Scopes) where
  assert_can_call-answer :
      fence_valid v entry q.context ≡ true
      → load_budget_scopes q.context q.reads ≡ ok b
      → l.state ≡ some s
      → s.conversation_id ≡ q.context.conversation_id
      → assert_can_call m k t v now q l
        ≡ (check_answer q.kind (scopes_from_state k s q.context b), l)
  unfolding assert_can_call
  assert_can_call-answer f e ls sc =
      ground (arith, eq_iff s.conversation_id q.context.conversation_id)

check_answer-ok :
    (kind : CallKind) (items : List ScopeUsage)
    → (check_answer kind (some items) ≡ ok tt) ↔ (exhausted_budget_scope items kind ≡ none)
check_answer-ok kind items = elim (Option-cases (exhausted_budget_scope items kind)) [
  | inl e ↦ (λ h. e, λ h. ground arith)
  | inr (found, e) ↦ (λ h. ground arith, λ h. ground arith)
]

check_answer-readable :
    (k : String → String) (s : State) (c : Context) (b : Scopes) (kind : CallKind)
    (reads : ScopeReads)
    → load_budget_scopes c reads ≡ ok b
    → (check_answer kind (scopes_from_state k s c b) ≡ ok tt)
      ↔ ((scopes_from_state k s c b ≢ none) × (within_budgets k c b kind s ≡ true))
check_answer-readable k s c b kind reads loaded = elim (Option-cases (scopes_from_state k s c b)) [
  | inl e ↦ (λ h. absurd (ground arith), λ h. absurd (h.0 e))
  | inr (items, e) ↦
      let agree = budgets_agree k s c b kind items e (has_task_context c reads b loaded) in
      (
        λ h. (λ n. ground arith, agree.1 ((check_answer-ok kind items).0 (rw e at h))),
        λ h. rw e ((check_answer-ok kind items).1 (agree.0 h.1)),
      )
]

check_answer-type_error :
    (kind : CallKind) (scopes : Option (List ScopeUsage))
    → (check_answer kind scopes ≡ err type_error) ↔ (scopes ≡ none)
check_answer-type_error kind none = (λ h. refl, λ h. refl)
check_answer-type_error kind (some items) =
    elim (Option-cases (exhausted_budget_scope items kind)) [
      | inl e ↦ (λ h. absurd (ground arith), λ h. absurd (ground arith))
      | inr (found, e) ↦ (λ h. absurd (ground arith), λ h. absurd (ground arith))
    ]

-- With a valid fence, scopes that load, and a state document of the same conversation, the diagnostic check
-- of a call leaves the ledger as it is. It admits the call exactly when the counters of all its scopes can
-- be read and the tests of the budgets in the filter of the atomic reservation hold of the same document; it
-- ends in a TypeError exactly when the counters of a scope are missing, though the filter reads these as 0.
pub assert_can_call_lem :
    (m : Mongo) (k : String → String) (t : Texts) (v : Validator) (now : ℕ) (q : Request)
    (l : Ledger) (s : State) (b : Scopes)
    → fence_valid v entry q.context ≡ true
    → load_budget_scopes q.context q.reads ≡ ok b
    → l.state ≡ some s
    → s.conversation_id ≡ q.context.conversation_id
    → ((assert_can_call m k t v now q l).1 ≡ l)
      × (((assert_can_call m k t v now q l).0 ≡ ok tt) ↔ (
          (scopes_from_state k s q.context b ≢ none)
          × (within_budgets k q.context b q.kind s ≡ true)))
      × (((assert_can_call m k t v now q l).0 ≡ err type_error)
          ↔ (scopes_from_state k s q.context b ≡ none))
assert_can_call_lem m k t v now q l s b f e ls sc =
    let given = assert_can_call-answer m k t v now q l s b f e ls sc in
    let admitted = check_answer-readable k s q.context b q.kind q.reads e in
    let crashed = check_answer-type_error q.kind (scopes_from_state k s q.context b) in
    let same = ap (λ a. a.0) given in
    (
      ap (λ a. a.1) given,
      (λ h. admitted.0 (sym same ∙ h), λ h. same ∙ admitted.1 h),
      (λ h. crashed.0 (sym same ∙ h), λ h. same ∙ crashed.1 h),
    )
