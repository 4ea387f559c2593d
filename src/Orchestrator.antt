-- ===== src/Orchestrator.antt =====
-- The orchestrator of server/internal/orchestrator: the statuses of tasks and jobs.
pub mod World
pub mod Tracker
pub mod Decomposition
pub mod Checkpoints
pub mod Jobs
pub mod Merge
pub mod Reject
pub mod Worker
pub mod Queue
pub mod Commands
pub mod Outcome
pub mod Keeps
pub mod Calls
pub mod Histories
pub mod Statuses
pub mod Limits
pub mod Retry
pub mod Sample
mod Examples
