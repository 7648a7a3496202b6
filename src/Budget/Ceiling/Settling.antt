-- ===== src/Budget/Ceiling/Settling.antt =====
-- lib/agent-team/execution-budget.ts: finishSettlingReceipt as one of the ledger's atomic writes.
use sci_pegasus.Common.{
  ℕ, ◌≡◌, refl, sym, ◌∙◌, subst, String, some, inl, inr, arith, Bool-cases, Option-cases,
}
use sci_pegasus.Mongo.{Mongo, IsMongo, plain, eq_plain}
use sci_pegasus.Budget.Documents.{State, find_reservation}
use sci_pegasus.Budget.Updates.{started_filter, settle_update}
use sci_pegasus.Budget.Receipts.{
  Receipt, Ledger, Result, ok, err, Exec, continue, settled, put_receipt, update_receipt,
  update_state,
}
use sci_pegasus.Budget.Recovery.{active_reservation}
use sci_pegasus.Budget.Settlement.{
  apply_telemetry_once, context_from_receipt, settle_state, complete_receipt,
  finish_settling_receipt,
}
use sci_pegasus.Budget.Idempotence.Settling.{apply-state}
use sci_pegasus.Budget.Ceiling.{Limits, settle, Reach, here, next, IsWithin}
use sci_pegasus.Budget.Ceiling.Steps.{tool_call_ceiling}

-- The document is there, and some steps lead to it.
pub record Arrives (k : String → String) (limits : Limits) (s : State) (l : Ledger) : Type 0 where
  pub document : State
  pub is_there : l.state ≡ some document
  pub steps : Reach k limits s document

settle_state-Arrives :
    (k : String → String) (limits : Limits) (now : ℕ) (r : Receipt) (l : Ledger) (s : State)
    → l.state ≡ some s
    → Arrives k limits s (settle_state plain k now r l).1
unfolding settle_state active_reservation update_state context_from_receipt
settle_state-Arrives k limits now r l s e =
    elim (Bool-cases (started_filter k r.team_id r.reservation_key r.admission_id r.attempt s)) [
      | inl f ↦ record {
        document = settle_update k r.reservation_key (context_from_receipt r) r.usage_delta s;
        is_there = ground arith;
        steps = next here (
            settle r.reservation_key r.admission_id r.attempt (context_from_receipt r) r.usage_delta
              f);
      }
      | inr f ↦ elim (Option-cases (find_reservation r.reservation_key s.active_reservations)) [
        | inl gone ↦ record { document = s; is_there = ground arith; steps = here }
        | inr (q, there) ↦ record { document = s; is_there = ground arith; steps = here }
      ]
    ]

-- What goes on without touching the document leaves it.
continue-state :
    {A B : Type 0} (r : Result A) (f : A → Exec B) (l : Ledger)
    → ((a : A) → (f a l).1.state ≡ l.state)
    → (continue r f l).1.state ≡ l.state
continue-state (ok a) f l h = h a
continue-state (err e) f l h = refl

finish-state :
    (k : String → String) (now : ℕ) (r : Receipt) (l : Ledger)
    → (finish_settling_receipt plain k now r l).1.state ≡ (settle_state plain k now r l).1.state
unfolding finish_settling_receipt complete_receipt update_receipt put_receipt
finish-state k now r l =
    let settled_ledger = (settle_state plain k now r l).1 in
    let id = settled r.admission_id r.attempt in
    let c = context_from_receipt r in
    let applied = apply_telemetry_once plain k now c id r.usage_delta settled_ledger in
    continue-state (settle_state plain k now r l).0 _ settled_ledger (λ _.
      continue-state applied.0 _ applied.1 (λ t. refl)
      ∙ apply-state k now c id r.usage_delta settled_ledger)

finish_plain :
    (k : String → String) (limits : Limits) (now : ℕ) (r : Receipt) (l : Ledger) (s : State)
    → l.state ≡ some s
    → Arrives k limits s (finish_settling_receipt plain k now r l).1
finish_plain k limits now r l s e =
    let a = settle_state-Arrives k limits now r l s e in
    record {
      document = a.document;
      is_there = finish-state k now r l ∙ a.is_there;
      steps = a.steps;
    }

-- Whether it succeeds or fails, finishing a settling receipt moves the state document by steps of the
-- ledger, so that tool calls that were within their limits before are within them after.
pub finish_settling_receipt-Arrives :
    (m : Mongo)
    → IsMongo m
    → (k : String → String) (limits : Limits) (now : ℕ) (r : Receipt) (l : Ledger) (s : State)
    → l.state ≡ some s
    → IsWithin limits s
    → (a : Arrives k limits s (finish_settling_receipt m k now r l).1) × IsWithin limits a.document
finish_settling_receipt-Arrives m documented k limits now r l s e w =
    let a =
      subst (λ x. Arrives k limits s (finish_settling_receipt x k now r l).1)
        (sym (eq_plain m documented)) (finish_plain k limits now r l s e) in
    (a, tool_call_ceiling k limits s a.document w a.steps)
