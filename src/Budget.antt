-- ===== src/Budget.antt =====
-- lib/agent-team/execution-budget.ts: the ledger that admits external calls against the budgets of a
-- team, an agent and a task.
pub mod Usage
pub mod Documents
pub mod Admission
pub mod Updates
pub mod Ceiling
pub mod Scopes
pub mod Keys
pub mod Pending
pub mod Receipts
pub mod Fence
pub mod Initialize
pub mod Diagnosis
pub mod Recovery
pub mod Settlement
pub mod Calls
pub mod Reserving
pub mod Starting
pub mod Boundary
pub mod RoundTrip
pub mod Idempotence
