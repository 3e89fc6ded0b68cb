-- ===== src/Controls.antt =====
-- src/mutiai/services/runtime_controls.py: product-owned admission of Runtime executions, the
-- concurrency limit and the token budget.
pub mod Types
pub mod Policies
pub mod Activity
pub mod Capacity
pub mod Saving
pub mod Admit
pub mod Settle
pub mod Snapshot
pub mod Policy
pub mod Admission
pub mod Budget
pub mod Ledger
pub mod Ready
pub mod Balance
pub mod Settlement
mod Examples
