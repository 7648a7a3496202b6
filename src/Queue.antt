-- ===== src/Queue.antt =====
-- lib/agent/message-queue.ts: messages that wait for a running loop.
pub mod Rows
pub mod Intake
pub mod Claims
pub mod Repair
pub mod Dequeue
pub mod Acknowledge
pub mod Privacy
pub mod Retry
pub mod Replay
