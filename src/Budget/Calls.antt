-- ===== src/Budget/Calls.antt =====
-- lib/agent-team/execution-budget.ts: a request for a call, and what becomes of an earlier attempt.
use Prim.Native.String.{◌++◌ as ◌+++◌}
use sci_pegasus.Common.{
  ℕ, String, ◌==◌, Bool, true, false, ◌&&◌, not, Option, none, some, List, ltb, if◌then◌else◌,
}
use sci_pegasus.Mongo.{Mongo}
use sci_pegasus.Budget.Usage.{CallKind, model, compaction, tool}
use sci_pegasus.Budget.Documents.{
  Context, Reservation, is_reserved, truthy, context_from_reservation,
}
use sci_pegasus.Budget.Receipts.{
  Receipt, ReceiptStatus, identity_conflict, in_progress, ok, err, Exec, ◌>>=◌, pure, throw,
  same_identity,
}
use sci_pegasus.Budget.Fence.{Validator, prior_attempt, fence_valid, ScopeReads}
use sci_pegasus.Budget.Initialize.{UsageRow, initialize_state}
use sci_pegasus.Budget.Recovery.{active_reservation, release_reservation, abandon_started}
use sci_pegasus.Budget.Settlement.{is_settling, finish_settling_receipt}

-- JavaScript's own functions on texts.
pub record Texts : Type 0 where
  pub trim : String → String
  pub length_utf16 : String → ℕ
  pub has_control : String → Bool

-- What one call of reserveCall is given and what it reads besides the ledger. `uuid` is randomUUID().
pub record Request : Type 0 where
  pub context : Context
  pub kind : CallKind
  pub label : Option String
  pub attempt_key : Option String
  pub uuid : String
  pub reads : ScopeReads
  pub rows : List UsageRow

kind_name : CallKind → String
kind_name model = "model"
kind_name compaction = "compaction"
kind_name tool = "tool"

trimmed : Texts → Option String → Option String
trimmed t none = none
trimmed t (some key) = some (t.trim key)

abbrev or_text : Option String → String → String
or_text none d = d
or_text (some key) d = key

unfoldable pub call_key : Texts → Request → String
unfolding trimmed kind_name
call_key t q =
    or_text (truthy (trimmed t q.attempt_key))
      (q.context.run_id +++ (":" +++ (kind_name q.kind +++ (":physical:" +++ q.uuid))))

unfoldable pub is_valid_key : Texts → String → Bool
is_valid_key t key =
    not (key == "") && not (ltb 1024 (t.length_utf16 key)) && not (t.has_control key)

-- An earlier attempt whose call was consumed for good.
unfoldable pub is_consumed : Option Receipt → Bool
is_consumed none = false
is_consumed (some r) = elim r.status [
  | ReceiptStatus.completed ↦ true
  | ReceiptStatus.abandoned ↦ true
  | _ ↦ false
]

is_open : Option Receipt → Bool
is_open none = false
is_open (some r) = elim r.status [
  | ReceiptStatus.reserved ↦ true
  | ReceiptStatus.started ↦ true
  | _ ↦ false
]

is_releasing : ReceiptStatus → Bool
is_releasing ReceiptStatus.releasing = true
is_releasing _ = false

abbrev pub attempt_of : Option Receipt → ℕ
attempt_of none = 0
attempt_of (some r) = r.attempt

abbrev reason_or : String → Option String → String
reason_or d none = d
reason_or d (some r) = r

abbrev pub is_positive : ℕ → Bool
is_positive n = ltb 0 n

module _ (m : Mongo) (k : String → String) (t : Texts) (v : Validator) (now : ℕ) where
  -- An interrupted release is finished.
  finish_releasing : Request → String → Receipt → Exec (Unit {0})
  unfolding initialize_state active_reservation release_reservation
  finish_releasing q key prior = initialize_state m k q.context q.rows now >>= λ s l.
      elim (active_reservation (some s) key) [
        | none ↦ (ok tt, l)
        | some r ↦
            let (done, l') =
              release_reservation m k now q.context.team_id key r
                (reason_or "recovered_release" prior.release_reason) l in
            (ok tt, if is_reserved r.status then l' else l)
      ]

  finish_settling : Receipt → Exec (Unit {0})
  unfolding finish_settling_receipt
  finish_settling prior = finish_settling_receipt m k now prior >>= λ _. pure tt

  -- The first part of reserveCall: a settling or releasing receipt is finished.
  unfoldable pub settle_prior :
      Request → String → String → String → Option Receipt → Exec (Unit {0})
  unfolding finish_settling finish_releasing same_identity is_releasing
  settle_prior q key id reservation_key none = pure tt
  settle_prior q key id reservation_key (some prior) =
      if same_identity prior q.context q.kind key
      then if is_settling prior.status
        then finish_settling prior
        else if is_releasing prior.status
        then finish_releasing q reservation_key prior
        else pure tt
      else throw identity_conflict

  -- The second part: an open attempt is in progress, or stale and reclaimed. Whether it was consumed.
  reclaim_active : Request → String → Reservation → Exec Bool
  unfolding release_reservation abandon_started
  reclaim_active q key r l =
      let (released, l₁) =
        release_reservation m k now q.context.team_id key r "stale_attempt_reclaimed_before_start"
          l in
      let (left, l₂) =
        abandon_started m k now q.context.team_id key r "stale_started_attempt_usage_unobserved"
          l in
      if fence_valid v prior_attempt (context_from_reservation q.context.team_id r)
      then (err in_progress, l)
      else if is_reserved r.status
      then (ok false, l₁)
      else (ok true, l₂)

  reclaim_open : Request → String → Option Receipt → Exec Bool
  unfolding reclaim_active initialize_state active_reservation is_consumed
  reclaim_open q key prior = initialize_state m k q.context q.rows now >>= λ s l.
      elim (active_reservation (some s) key) [
        | none ↦ (ok (is_consumed prior), l)
        | some r ↦ reclaim_active q key r l
      ]

  unfoldable pub reclaim : Request → String → Option Receipt → Exec Bool
  unfolding reclaim_open is_consumed is_open
  reclaim q key prior = if is_open prior then reclaim_open q key prior else pure (is_consumed prior)
