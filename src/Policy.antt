-- ===== src/Policy.antt =====
-- server/internal/policy/engine.go: the ticket workflow. The children define its parts and prove
-- what holds of them.
pub mod World
pub mod Transition
pub mod Step
pub mod Commits
pub mod Moves
pub mod Changes
pub mod Submission
pub mod Refines
pub mod Workflow
pub mod Log
pub mod LogKept
pub mod Passes
pub mod Service
pub mod History
pub mod Fate
pub mod Outcomes
pub mod Approval
pub mod Failing
pub mod Progress
pub mod Tx
pub mod Engine
pub mod Scheduler
