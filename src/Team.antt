-- ===== src/Team.antt =====
-- The Agent Team (lib/agent-team).
pub mod Grants
pub mod Tools
