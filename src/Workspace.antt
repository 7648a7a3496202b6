-- ===== src/Workspace.antt =====
-- lib/workspace: who may read and write which file.
pub mod Acl
pub mod Paths
