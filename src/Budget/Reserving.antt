-- ===== src/Budget/Reserving.antt =====
-- lib/agent-team/execution-budget.ts: reserving a call, and the check that only reads.
use sci_pegasus.Common.{ℕ, ◌+◌, String, Bool, ◌||◌, Option, none, some, if◌then◌else◌}
use sci_pegasus.Mongo.{Mongo}
use sci_pegasus.Budget.Usage.{exhausted_budget_scope}
use sci_pegasus.Budget.Documents.{State}
use sci_pegasus.Budget.Updates.{
  Scopes, ReserveInput, reserved_calls, bypasses, reserve_filter, reserve_update, admission_id,
}
use sci_pegasus.Budget.Scopes.{scopes_from_state}
use sci_pegasus.Budget.Receipts.{
  Ledger, fence_lost, invalid_key, in_progress, cas_not_acquired, not_persisted, type_error,
  budget_exceeded, ok, err, Exec, ◌>>=◌, ◌>>◌, pure, throw, guard, upsert_receipt, update_state,
}
use sci_pegasus.Budget.Fence.{
  Validator, entry, before_reserve, before_retry, after_reserve, fence_valid, assert_fence,
  load_budget_scopes,
}
use sci_pegasus.Budget.Initialize.{initialize_state}
use sci_pegasus.Budget.Recovery.{active_reservation, release_reservation, recover_stale_admissions}
use sci_pegasus.Budget.Settlement.{Admission}
use sci_pegasus.Budget.Calls.{
  Texts, Request, attempt_of, is_positive, call_key, is_valid_key, settle_prior, reclaim,
}

module _ (m : Mongo) (k : String → String) (t : Texts) (v : Validator) (now : ℕ) where
  -- reserveAtomic
  reserve_atomic : ReserveInput → Ledger → Option State × Ledger
  unfolding update_state
  reserve_atomic i = update_state m (reserve_filter k i) (reserve_update k i now)

  -- The refusal of a reservation that was not made.
  refuse : Request → Scopes → String → Exec Admission
  unfolding initialize_state active_reservation scopes_from_state
  refuse q b key = initialize_state m k q.context q.rows now >>= λ s.
      elim (active_reservation (some s) key) [
        | some r ↦ throw in_progress
        | none ↦ elim (scopes_from_state k s q.context b) [
          | none ↦ throw type_error
          | some items ↦ elim (exhausted_budget_scope items q.kind) [
            | none ↦ throw cas_not_acquired
            | some (scope, e) ↦ throw (budget_exceeded scope e)
          ]
        ]
      ]

  admission_of : ReserveInput → Admission
  admission_of i = record {
    admission_id = i.admission_id;
    admission_key = i.admission_key;
    reservation_key = i.reservation_key;
    attempt = i.attempt;
    reserved_tool_calls = i.reserved_tool_calls;
  }

  -- The receipt of a reservation that was made, and the last look at the fence.
  confirm : ReserveInput → State → Exec Admission
  unfolding active_reservation upsert_receipt release_reservation admission_of
  confirm i s l = elim (active_reservation (some s) i.reservation_key) [
    | none ↦ (err not_persisted, l)
    | some r ↦
        let l₁ = upsert_receipt m now i.context.team_id i.reservation_key r l in
        let (released, l₂) =
          release_reservation m k now i.context.team_id i.reservation_key r
            "execution_fence_lost_during_admission" l₁ in
        if fence_valid v after_reserve i.context
        then (ok (admission_of i), l₁)
        else (err fence_lost, l₂)
  ]

  -- One more try, after stale reservations were recovered.
  retry : Request → ReserveInput → Exec Admission
  unfolding recover_stale_admissions reserve_atomic refuse confirm
  retry q i l =
      let (n, l₁) = recover_stale_admissions m k now v l in
      let (made, l₂) = reserve_atomic i l₁ in
      if is_positive n.released || is_positive n.abandoned
      then (if fence_valid v before_retry i.context
          then elim made [
            | none ↦ refuse q i.budgets i.reservation_key l₂
            | some s ↦ confirm i s l₂
          ]
          else (err fence_lost, l₁))
      else refuse q i.budgets i.reservation_key l₁

  attempt_reserve : Request → ReserveInput → Exec Admission
  unfolding reserve_atomic retry confirm
  attempt_reserve q i l =
      let (made, l') = reserve_atomic i l in
      elim made [ none ↦ retry q i l' | some s ↦ confirm i s l' ]

  unfoldable pub reserve_input : Request → Scopes → String → ℕ → Bool → ReserveInput
  unfolding admission_id reserved_calls bypasses
  reserve_input q b key prior_attempts consumed =
      let id = admission_id k q.context.team_id key in
      record {
        context = q.context;
        budgets = b;
        admission_id = id;
        admission_key = key;
        reservation_key = k id;
        kind = q.kind;
        label = q.label;
        attempt = prior_attempts + 1;
        reserved_tool_calls = reserved_calls q.kind consumed;
        bypass_budget_gates = bypasses q.kind consumed;
      }

  read_scopes : Request → Exec Scopes
  unfolding load_budget_scopes
  read_scopes q l = (load_budget_scopes q.context q.reads, l)

  -- reserveCall
  unfoldable pub reserve_call : Request → Exec Admission
  unfolding call_key is_valid_key settle_prior reclaim attempt_reserve reserve_input read_scopes
      initialize_state admission_id
  reserve_call q = do
    assert_fence v entry q.context
    b ← read_scopes q
    initialize_state m k q.context q.rows now
    let key = call_key t q
    let id = admission_id k q.context.team_id key
    guard (is_valid_key t key) invalid_key
    λ l. settle_prior m k t v now q key id (k id) (l.receipts id) l
    consumed ← λ l. reclaim m k t v now q (k id) (l.receipts id) l
    assert_fence v before_reserve q.context
    λ l. attempt_reserve q (reserve_input q b key (attempt_of (l.receipts id)) consumed) l

  -- assertCanCall
  unfoldable pub assert_can_call : Request → Exec (Unit {0})
  unfolding read_scopes initialize_state scopes_from_state
  assert_can_call q = do
    assert_fence v entry q.context
    b ← read_scopes q
    s ← initialize_state m k q.context q.rows now
    elim (scopes_from_state k s q.context b) [
      | none ↦ throw type_error
      | some items ↦ elim (exhausted_budget_scope items q.kind) [
        | none ↦ pure tt
        | some (scope, e) ↦ throw (budget_exceeded scope e)
      ]
    ]
