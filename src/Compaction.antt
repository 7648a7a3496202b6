-- ===== src/Compaction.antt =====
-- lib/agent-compaction: the durable compaction of a conversation's or a member's context.
pub mod Jobs
pub mod Writes
pub mod Filters
pub mod Updates
pub mod Store
pub mod Runs
pub mod Merging
