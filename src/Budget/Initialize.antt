-- ===== src/Budget/Initialize.antt =====
-- lib/agent-team/execution-budget.ts: the state document, made from the telemetry when it is first
-- needed.
use sci_pegasus.Common.{ℕ, String, ◌==◌, Option, none, some, List, [], ◌∷◌, if◌then◌else◌}
use sci_pegasus.Mongo.{Mongo}
use sci_pegasus.Budget.Usage.{Delta, Totals, zero_totals, normalized_delta, add_usage}
use sci_pegasus.Budget.Documents.{Context, State, UsageMap, or_zero, truthy}
use sci_pegasus.Budget.Updates.{state_id}
use sci_pegasus.Budget.Receipts.{Exec, ok, err, state_conflict}

-- One group of the aggregation over the telemetry.
pub record UsageRow : Type 0 where
  pub agent_id : String
  pub task_id : Option String
  pub usage : Delta

pub record Tally : Type 0 where
  pub team : Totals
  pub agent : UsageMap
  pub task : UsageMap

abbrev add_at : String → Totals → UsageMap → UsageMap
add_at key usage m k = if key == k then some (add_usage (or_zero (m k)) usage) else m k

abbrev add_task : (String → String) → Option String → Totals → UsageMap → UsageMap
add_task k none usage m = m
add_task k (some id) usage m = add_at (k id) usage m

-- One round of the loop over the rows.
unfoldable pub tally_row : (String → String) → UsageRow → Tally → Tally
unfolding normalized_delta add_usage
tally_row k row t =
    let usage = normalized_delta row.usage in
    record {
      team = add_usage t.team usage;
      agent = add_at (k row.agent_id) usage t.agent;
      task = add_task k (truthy row.task_id) usage t.task;
    }

unfoldable pub tally : (String → String) → List UsageRow → Tally → Tally
unfolding tally_row
tally k [] t = t
tally k (row ∷ rows) t = tally k rows (tally_row k row t)

abbrev pub no_tally : Tally
no_tally = record { team = zero_totals; agent = λ key. none; task = λ key. none }

unfoldable pub initial_state : (String → String) → Context → List UsageRow → ℕ → State
unfolding tally state_id
initial_state k c rows now =
    let t = tally k rows no_tally in
    record {
      budget_state_id = state_id k c.team_id;
      team_id = c.team_id;
      conversation_id = c.conversation_id;
      user_id = c.user_id;
      team_usage = t.team;
      agent_usage = t.agent;
      task_usage = t.task;
      active_reservations = [];
      initialized_at = now;
    }

-- The document that is there, or else the initial one by an upsert that inserts only.
unfoldable pub initialize_state :
    Mongo → (String → String) → Context → List UsageRow → ℕ → Exec State
unfolding initial_state
initialize_state m k c rows now l = elim l.state [
  | some s ↦ (if s.conversation_id == c.conversation_id then ok s else err state_conflict, l)
  | none ↦
      let s = m.upsert State (initial_state k c rows now) (λ d. d) l.state in
      (ok s, record l { state = some s })
]
