-- ===== src/Queue/Repair.antt =====
-- lib/agent/message-queue.ts: the repair of receipts whose Root Run has ended.
use Prim.Native.String.{◌++◌ as ◌+++◌}
use sci_pegasus.Common.{
  ℕ, zero, suc, ◌+◌, ◌≡◌, refl, ap, ◌∙◌, min, max, String, ◌==◌, Bool, true, false, ◌&&◌, ◌||◌, not,
  Option, none, some, List, [], ◌∷◌, exists, select, same_text, if◌then◌else◌, arith, Bool-cases,
  inl, inr,
}
use sci_pegasus.Team.Grants.{given_or}
use sci_pegasus.Budget.Documents.{truthy}
use sci_pegasus.Queue.Rows.{
  Visibility, SourceKind, Row, Collection, IsCollection, change_where, is_live, same_visibility,
  same_source,
}
use sci_pegasus.Queue.Claims.{untarget_row}

-- What the sweep reads of an AgentRun.
pub record RunRow : Type 0 where
  pub run_id : String
  pub conversation_id : String
  pub status : String
  pub execution_mode : Option String
  pub root_visible : Option Bool
  pub team_id : Option String
  pub agent_id : Option String

-- What it reads of a team.
pub record TeamRow : Type 0 where
  pub team_id : String
  pub conversation_id : String
  pub root_agent_id : String

-- The argument of repairTerminalRootTeamQueueReceipts.
pub record Sweep : Type 0 where
  pub conversation_id : Option String
  pub run_id : Option String
  pub limit : Option ℕ

unfoldable pub is_team_update : Row → Bool
is_team_update r =
    same_visibility r.visibility Visibility.internal
    && same_source r.source_kind SourceKind.team_supervision

abbrev matches : Option String → String → Bool
matches none value = true
matches (some given) value = given == value

abbrev targets : Option String → Option String → Bool
targets given none = false
targets none (some target) = true
targets (some run) (some target) = run == target

is_candidate : Sweep → Row → Bool
unfolding is_team_update
is_candidate q r =
    matches (truthy q.conversation_id) r.conversation_id
    && targets (truthy q.run_id) r.target_run_id
    && is_team_update r
    && is_live r.status

abbrev take_rows : ℕ → List Row → List Row
take_rows zero rows = []
take_rows (suc n) [] = []
take_rows (suc n) (r ∷ rows) = r ∷ take_rows n rows

abbrev is_terminal : String → Bool
is_terminal status = status == "completed" || status == "cancelled" || status == "failed"

abbrev is_set : Option String → Bool
is_set none = false
is_set (some id) = true

abbrev is_hidden : Option Bool → Bool
is_hidden none = false
is_hidden (some visible) = not visible

-- The query of AgentRun.
is_terminal_run : List Row → RunRow → Bool
is_terminal_run candidates run =
    exists (λ r. same_text r.target_run_id (some run.run_id)) candidates
    && is_terminal run.status
    && not (same_text run.execution_mode (some "agent_session"))
    && not (is_hidden run.root_visible)
    && is_set run.team_id
    && is_set run.agent_id

identity : String → String → String → String
identity team conversation agent = team +++ ("\0" +++ (conversation +++ ("\0" +++ agent)))

-- Whether the Run is that of its team's Root.
is_root_run : List TeamRow → RunRow → Bool
unfolding identity
is_root_run teams run =
    exists
      (λ t.
        identity t.team_id t.conversation_id t.root_agent_id
        == identity (given_or "" run.team_id) run.conversation_id (given_or "" run.agent_id))
      teams

-- The filter of one update of the bulk write.
is_stuck : RunRow → Row → Bool
unfolding is_team_update
is_stuck run r =
    r.conversation_id == run.conversation_id
    && same_text r.target_run_id (some run.run_id)
    && is_team_update r
    && is_live r.status

module _ (c : Collection) where
  repair_runs : List RunRow → List Row → ℕ × List Row
  unfolding is_stuck untarget_row
  repair_runs [] rows = (0, rows)
  repair_runs (run ∷ runs) rows =
      let (modified, left) = c.update_many (is_stuck run) untarget_row rows in
      let (more, rest) = repair_runs runs left in (modified + more, rest)

  -- repairTerminalRootTeamQueueReceipts, given the Runs and the teams.
  unfoldable pub repair_terminal_receipts :
      Sweep → List RunRow → List TeamRow → List Row → ℕ × List Row
  unfolding is_candidate is_terminal_run is_root_run repair_runs
  repair_terminal_receipts q runs teams rows =
      let candidates =
        take_rows (max 1 (min (given_or 500 q.limit) 2000)) (select (is_candidate q) rows) in
      repair_runs (select (is_root_run teams) (select (is_terminal_run candidates) runs)) rows

select-change :
    (p q : Row → Bool) (u : Row → Row) (rows : List Row)
    → ((r : Row) → q r ≡ true → p r ≡ false)
    → ((r : Row) → q r ≡ true → p (u r) ≡ false)
    → select p (change_where q u rows) ≡ select p rows
select-change p q u [] h k = refl
select-change p q u (r ∷ rows) h k = elim (Bool-cases (q r)) [
  | inl e ↦ rw (e, h r e, k r e) (select-change p q u rows h k)
  | inr e ↦ rw e (ap (λ rs. if p r then r ∷ rs else rs) (select-change p q u rows h k))
]

stuck_update : (run : RunRow) (r : Row) → is_stuck run r ≡ true → not (is_team_update r) ≡ false
unfolding is_stuck is_team_update
stuck_update run r h = ground arith

untargeted_update :
    (run : RunRow) (r : Row) → is_stuck run r ≡ true → not (is_team_update (untarget_row r)) ≡ false
unfolding is_stuck is_team_update untarget_row
untargeted_update run r h = ground arith

repair_runs-others :
    (c : Collection)
    → IsCollection c
    → (runs : List RunRow) (rows : List Row)
    → select (λ r. not (is_team_update r)) (repair_runs c runs rows).1
      ≡ select (λ r. not (is_team_update r)) rows
unfolding repair_runs
repair_runs-others c documented [] rows = refl
repair_runs-others c documented (run ∷ runs) rows =
    repair_runs-others c documented runs (c.update_many (is_stuck run) untarget_row rows).1
    ∙ ap (select (λ r. not (is_team_update r))) (documented.many (is_stuck run) untarget_row rows)
    ∙ select-change (λ r. not (is_team_update r)) (is_stuck run) untarget_row rows
        (stuck_update run) (untargeted_update run)

-- Whatever Runs have ended, the repair sweep leaves every row that is not an internal update of the
-- team's supervision as it is: the member-only rows keep their targets and their claims.
pub repair_terminal_receipts-others :
    (c : Collection)
    → IsCollection c
    → (q : Sweep) (runs : List RunRow) (teams : List TeamRow) (rows : List Row)
    → select (λ r. not (is_team_update r)) (repair_terminal_receipts c q runs teams rows).1
      ≡ select (λ r. not (is_team_update r)) rows
unfolding repair_terminal_receipts
repair_terminal_receipts-others c documented q runs teams rows =
    let candidates =
      take_rows (max 1 (min (given_or 500 q.limit) 2000)) (select (is_candidate q) rows) in
    repair_runs-others c documented
      (select (is_root_run teams) (select (is_terminal_run candidates) runs)) rows
