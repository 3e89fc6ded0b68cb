-- ===== src/Scheduler.antt =====
-- src/mutiai/services/linear_scheduler.py: the steps of a planned task.
pub mod Types
pub mod Rows
pub mod Cancel
pub mod Delivery
pub mod Payloads
pub mod Ending
pub mod Finalize
pub mod Assign
pub mod Prepare
pub mod Sorted
pub mod Cancelled
pub mod Ready
pub mod Dispatch
pub mod Ended
mod Examples
