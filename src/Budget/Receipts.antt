-- ===== src/Budget/Receipts.antt =====
-- lib/agent-team/types.ts and execution-budget.ts: receipts, telemetry, and the ledger's documents as
-- one state. A method returns an error or a value, and the state that its writes have left.
use sci_pegasus.Common.{
  ℕ, String, ◌==◌, Bool, true, false, ◌&&◌, Option, none, some, List, [], ◌∷◌, ◌++◌, ltb, eqb,
  same_text, if◌then◌else◌,
}
use sci_pegasus.Mongo.{Mongo}
use sci_pegasus.Budget.Usage.{
  Totals, zero_totals, CallKind, model, compaction, tool, Exhausted, Scope,
}
use sci_pegasus.Budget.Documents.{Context, Reservation, ReservationStatus, State}

-- AgentBudgetAdmissionStatus
pub data ReceiptStatus : Type 0 where
  reserved started settling completed releasing released abandoned : ReceiptStatus

pub record HistoryEntry : Type 0 where
  pub attempt : ℕ
  pub status : ReceiptStatus
  pub execution_owner_id : String
  pub reserved_tool_calls : ℕ
  pub usage_delta : Totals
  pub usage_observed : Bool
  pub started_at : Option ℕ
  pub completed_at : Option ℕ
  pub released_at : Option ℕ
  pub abandoned_at : Option ℕ
  pub release_reason : Option String
  pub archived_at : ℕ

-- AgentBudgetAdmissionRecord
pub record Receipt : Type 0 where
  pub admission_id : String
  pub admission_key : String
  pub reservation_key : String
  pub team_id : String
  pub conversation_id : String
  pub user_id : String
  pub agent_id : String
  pub task_id : Option String
  pub run_id : String
  pub execution_owner_id : String
  pub agent_session_id : Option String
  pub team_fence_required : Bool
  pub kind : CallKind
  pub label : Option String
  pub status : ReceiptStatus
  pub attempt : ℕ
  pub reserved_tool_calls : ℕ
  pub usage_delta : Totals
  pub usage_observed : Bool
  pub started_at : Option ℕ
  pub completed_at : Option ℕ
  pub released_at : Option ℕ
  pub abandoned_at : Option ℕ
  pub release_reason : Option String
  pub attempt_history : List HistoryEntry

-- What a contribution to the telemetry is known by: `<admission>:attempt:<n>` or `direct:<uuid>`.
pub data Contribution : Type 0 where
  settled : String → ℕ → Contribution
  direct : String → Contribution

-- AgentExecutionTelemetry, one for each Run.
pub record Telemetry : Type 0 where
  pub team_id : String
  pub conversation_id : String
  pub user_id : String
  pub agent_id : String
  pub task_id : Option String
  pub run_id : String
  pub totals : Totals
  pub applied : List Contribution

pub record Ledger : Type 0 where
  pub state : Option State
  pub receipts : String → Option Receipt
  pub telemetry : String → Option Telemetry

pub data Error : Type 0 where
  fence_lost conversation_mismatch task_mismatch state_conflict invalid_key identity_conflict :
      Error
  in_progress cas_not_acquired not_persisted not_startable receipt_missing not_started : Error
  settlement_lost telemetry_conflict started_cannot_release release_lost type_error : Error
  budget_exceeded : Scope → Exhausted → Error

pub data Result (A : Type 0) : Type 0 where
  ok : A → Result A
  err : Error → Result A

abbrev pub Exec : Type 0 → Type 0
Exec A = Ledger → Result A × Ledger

abbrev pub continue : {A B : Type 0} → Result A → (A → Exec B) → Exec B
continue (ok a) f l = f a l
continue (err e) f l = (err e, l)

infixl 5 ◌>>=◌ ◌>>◌
abbrev pub ◌>>=◌ : {A B : Type 0} → Exec A → (A → Exec B) → Exec B
◌>>=◌ m f l = continue (m l).0 f (m l).1

abbrev pub ◌>>◌ : {A B : Type 0} → Exec A → Exec B → Exec B
◌>>◌ m n l = continue (m l).0 (λ _. n) (m l).1

abbrev pub pure : {A : Type 0} → A → Exec A
pure a l = (ok a, l)

abbrev pub throw : {A : Type 0} → Error → Exec A
throw e l = (err e, l)

abbrev pub guard : Bool → Error → Exec (Unit {0})
guard true e l = (ok tt, l)
guard false e l = (err e, l)

abbrev pub kind_eq : CallKind → CallKind → Bool
kind_eq model model = true
kind_eq compaction compaction = true
kind_eq tool tool = true
kind_eq _ _ = false

-- The negation of assertReceiptIdentity's test.
unfoldable pub same_identity : Receipt → Context → CallKind → String → Bool
same_identity r c kind key =
    r.team_id == c.team_id
    && r.conversation_id == c.conversation_id
    && r.user_id == c.user_id
    && r.agent_id == c.agent_id
    && same_text r.task_id c.task_id
    && r.run_id == c.run_id
    && kind_eq r.kind kind
    && r.admission_key == key

abbrev receipt_status : ReservationStatus → ReceiptStatus
receipt_status ReservationStatus.reserved = ReceiptStatus.reserved
receipt_status ReservationStatus.started = ReceiptStatus.started

-- The `$set` of upsertReceiptFromReservation.
unfoldable pub receipt_from_reservation : String → String → Reservation → Receipt
receipt_from_reservation team_id key r = record {
  admission_id = r.admission_id;
  admission_key = r.admission_key;
  reservation_key = key;
  team_id = team_id;
  conversation_id = r.conversation_id;
  user_id = r.user_id;
  agent_id = r.agent_id;
  task_id = r.task_id;
  run_id = r.run_id;
  execution_owner_id = r.execution_owner_id;
  agent_session_id = r.agent_session_id;
  team_fence_required = r.team_fence_required;
  kind = r.kind;
  label = r.label;
  status = receipt_status r.status;
  attempt = r.attempt;
  reserved_tool_calls = r.reserved_tool_calls;
  usage_delta = zero_totals;
  usage_observed = false;
  started_at = r.started_at;
  completed_at = none;
  released_at = none;
  abandoned_at = none;
  release_reason = none;
  attempt_history = [];
}

history_entry : ℕ → Receipt → HistoryEntry
history_entry now r = record {
  attempt = r.attempt;
  status = r.status;
  execution_owner_id = r.execution_owner_id;
  reserved_tool_calls = r.reserved_tool_calls;
  usage_delta = r.usage_delta;
  usage_observed = r.usage_observed;
  started_at = r.started_at;
  completed_at = r.completed_at;
  released_at = r.released_at;
  abandoned_at = r.abandoned_at;
  release_reason = r.release_reason;
  archived_at = now;
}

-- An earlier attempt is archived when a later one takes its receipt.
archive : ℕ → Receipt → ℕ → List HistoryEntry
unfolding history_entry
archive now existing attempt =
    if ltb existing.attempt attempt
    then existing.attempt_history ++ history_entry now existing ∷ []
    else existing.attempt_history

unfoldable pub put_receipt : String → Option Receipt → Ledger → Ledger
put_receipt id slot l = record l { receipts = λ j. if id == j then slot else l.receipts j }

module _ (m : Mongo) where
  -- upsertReceiptFromReservation
  unfoldable pub upsert_receipt : ℕ → String → String → Reservation → Ledger → Ledger
  unfolding receipt_from_reservation archive put_receipt
  upsert_receipt now team_id key r l =
      let new = receipt_from_reservation team_id key r in
      put_receipt r.admission_id
        (some (
          m.upsert Receipt new (λ old. record new { attempt_history = archive now old r.attempt })
            (l.receipts r.admission_id)))
        l

  -- updateOne on the receipt of an attempt.
  unfoldable pub update_receipt : String → ℕ → (Receipt → Receipt) → Ledger → Ledger
  unfolding put_receipt
  update_receipt id attempt change l =
      put_receipt id
        (m.find_one_and_update Receipt (λ r. eqb r.attempt attempt) change (l.receipts id)).1 l

  -- findOneAndUpdate on the state document.
  unfoldable pub update_state : (State → Bool) → (State → State) → Ledger → Option State × Ledger
  update_state filter change l =
      let (found, left) = m.find_one_and_update State filter change l.state in
      (found, record l { state = left })
