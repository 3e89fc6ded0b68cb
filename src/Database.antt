-- ===== src/Database.antt =====
-- The database session (src/mutiai/db.py, and the queries that the services make through it): the
-- tables, and the clock readings and identifiers that an operation draws.
use muti_ai.Prelude.{ℕ, ◌+◌, String, List}
use muti_ai.Models.Task.{Task, Assignment, RuntimeExecution, ProductEvent}
use muti_ai.Models.Approval.{ApprovalRequest}
use muti_ai.Models.Plan.{TaskExecutionPlan, PlanStep, PlanStepDependency}
use muti_ai.Models.Control.{RuntimeControlPolicy, RuntimeProviderCapacityRecord}

pub record Session : Type 0 where
  pub tasks : List Task
  pub assignments : List Assignment
  pub executions : List RuntimeExecution
  pub events : List ProductEvent
  pub approvals : List ApprovalRequest
  pub policies : List RuntimeControlPolicy
  pub capacities : List RuntimeProviderCapacityRecord
  pub plans : List TaskExecutionPlan
  pub plan_steps : List PlanStep
  pub dependencies : List PlanStepDependency

-- What the operation gets from outside: `utc_now n` is its n-th reading of the clock, `new_id n`
-- its n-th `uuid4`.
pub record Draws : Type 0 where
  pub utc_now : ℕ → ℕ
  pub new_id : ℕ → String

-- The draws that are left after `n` readings and `n` identifiers.
abbrev pub later : ℕ → Draws → Draws
later n d = record { utc_now = λ k. d.utc_now (n + k); new_id = λ k. d.new_id (n + k) }
