-- ===== src/Plans.antt =====
-- src/mutiai/domain/task_plan.py and src/mutiai/services/task_plans.py: execution plans of a Task.
pub mod Spec
pub mod Graph
pub mod Children
pub mod Visit
pub mod Rank
pub mod Kahn
pub mod Ancestors
pub mod Validate
pub mod Acyclic
pub mod Flow
pub mod Collect
pub mod Sound
pub mod Shape
pub mod Review
pub mod Identity
pub mod Create
pub mod Stored
pub mod Roundtrip
pub mod Guards
pub mod Creation
pub mod Replay
pub mod Examples
mod CreationExamples
