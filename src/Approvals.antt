-- ===== src/Approvals.antt =====
-- src/mutiai/services/approvals.py: user decisions on Runtime approval requests, and the workers
-- that wait for them. Each method is one step: it runs under the coordinator's locks.
pub mod State
pub mod Resolution
pub mod Waiting
pub mod Deciding
pub mod Cancelling
pub mod Loop
pub mod Requesting
pub mod Rows
pub mod Resolved
pub mod History
pub mod Decisions
pub mod Dropped
pub mod Stuck
mod Examples
