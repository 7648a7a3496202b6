-- ===== src/Hippocampus.antt =====
-- lib/agent/hippocampus-runtime.ts: compaction of a conversation in the background.
pub mod Budget
pub mod Telemetry
pub mod Tasks
pub mod Merge
pub mod Start
pub mod Requests
pub mod Exit
pub mod Safety
pub mod Restart
