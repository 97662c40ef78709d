-- ===== src/Agents.antt =====
-- The parts of agents/ that the queue's contract reaches into: retries, checkpoints, suspensions.
pub mod Retry
pub mod Checkpoint
pub mod Suspend
