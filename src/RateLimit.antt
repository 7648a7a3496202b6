-- ===== src/RateLimit.antt =====
-- lib/rate-limit: the sliding window, the plan limits and the two admission checks.
pub mod Window
pub mod Limits
pub mod Check
