-- ===== src/Examples.antt =====
-- The theorems at concrete documents and requests.
pub mod Ledger
pub mod Settling
pub mod Windows
pub mod Grants
pub mod Messages
pub mod Files
pub mod Compaction
pub mod Paths
pub mod Durable
pub mod Merges
