-- ===== src/Scheduler/Types.antt =====
-- The errors of src/mutiai/services/linear_scheduler.py, the work that it hands out, and what it
-- calls of other components.
use muti_ai.Prelude.{String, Result, List, ◌≡◌, ◌⊎◌}
use muti_ai.Models.Task.{Task}
use muti_ai.Models.Plan.{TaskExecutionPlan, PlanStep}
use muti_ai.Plans.Spec.{StepKind}
use muti_ai.Database.{Session}

-- `failed` is an exception of another component that passes through.
pub data SchedulerError : Type 0 where
  no_task no_plan records_unavailable dependent_specialist : SchedulerError
  failed : String → SchedulerError

-- The dict of `_work_for_step`; the schema is the one for the kind of the step.
pub record StepWork : Type 0 where
  pub assignment_id : String
  pub execution_id : String
  pub role_key : String
  pub instructions : String
  pub output_schema : StepKind

-- A transaction: what is committed, and what the session has written beyond it.
pub record Transaction : Type 0 where
  pub committed : Session
  pub pending : Session

-- The Workspaces, the Artifacts and the text of the instructions. Each call may commit, so that it
-- gives back what is committed after it. `uuid5` is Python's, in `NAMESPACE_URL`.
pub record Collaborators (Binding : Type 0) : Type 0 where
  pub runtime_provider : String
  pub ensure_role_workspace :
      Transaction → Task → (role_key : String) → Result SchedulerError String × Session
  pub materialize_step_inputs :
      Session
      → Task
      → PlanStep
      → (workspace_id : String) → Result SchedulerError (List Binding) × Session
  pub build_instructions :
      Session → Task → TaskExecutionPlan → PlanStep → List Binding → Result SchedulerError String
  pub uuid5 : String → String

-- The collaborators write no Assignments: a Workspace is made on top of the transaction, or the
-- transaction is given up.
pub record IsApart {Binding : Type 0} (c : Collaborators Binding) : Type 0 where
  pub workspace :
      (t : Transaction) (task : Task) (role_key : String)
      → ((c.ensure_role_workspace t task role_key).1.assignments ≡ t.committed.assignments)
        ⊎ ((c.ensure_role_workspace t task role_key).1.assignments ≡ t.pending.assignments)
  pub inputs :
      (s : Session) (task : Task) (step : PlanStep) (workspace_id : String)
      → (c.materialize_step_inputs s task step workspace_id).1.assignments ≡ s.assignments
