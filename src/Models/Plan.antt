-- ===== src/Models/Plan.antt =====
-- src/mutiai/models/task_plan.py: the rows of execution plans.
use muti_ai.Prelude.{ℕ, String, Option, List, Eq}
use muti_ai.Plans.Spec.{ArtifactContractSpec, StepKind}

pub data TaskExecutionPlanStatus : Type 0 where
  draft validated active completed needs_revision failed cancelled : TaskExecutionPlanStatus

pub data PlanStepStatus : Type 0 where
  pending_dependency ready submitted running waiting validating_output : PlanStepStatus
  completed blocked failed cancelled : PlanStepStatus

unfoldable pub TaskExecutionPlanStatus-discrete : Discrete TaskExecutionPlanStatus
TaskExecutionPlanStatus-discrete = hlevel

unfoldable pub PlanStepStatus-discrete : Discrete PlanStepStatus
PlanStepStatus-discrete = hlevel

instance abbrev pub plan_status_eq : Eq TaskExecutionPlanStatus
plan_status_eq = record { discrete = TaskExecutionPlanStatus-discrete }

instance abbrev pub step_status_eq : Eq PlanStepStatus
step_status_eq = record { discrete = PlanStepStatus-discrete }

pub record TaskExecutionPlan : Type 0 where
  pub plan_id : String
  pub task_id : String
  pub organization_spec_version_id : String
  pub plan_version : ℕ
  pub schema_version : String
  pub definition_hash : String
  pub source : String
  pub status : TaskExecutionPlanStatus
  pub summary : String
  pub validation_summary : Option String
  pub initial_input_contracts : List String
  pub created_at : ℕ
  pub activated_at : Option ℕ
  pub completed_at : Option ℕ

pub record PlanStep : Type 0 where
  pub plan_step_id : String
  pub plan_id : String
  pub step_key : String
  pub role_key : String
  pub step_kind : StepKind
  pub sequence : ℕ
  pub objective : String
  pub acceptance_criteria : String
  pub input_contracts : List String
  pub output_contracts : List ArtifactContractSpec
  pub status : PlanStepStatus
  pub created_at : ℕ
  pub ready_at : Option ℕ
  pub completed_at : Option ℕ

pub record PlanStepDependency : Type 0 where
  pub dependency_id : String
  pub plan_step_id : String
  pub depends_on_step_id : String
  pub created_at : ℕ

abbrev pub plan_status_text : TaskExecutionPlanStatus → String
plan_status_text TaskExecutionPlanStatus.draft = "draft"
plan_status_text TaskExecutionPlanStatus.validated = "validated"
plan_status_text TaskExecutionPlanStatus.active = "active"
plan_status_text TaskExecutionPlanStatus.completed = "completed"
plan_status_text TaskExecutionPlanStatus.needs_revision = "needs_revision"
plan_status_text TaskExecutionPlanStatus.failed = "failed"
plan_status_text TaskExecutionPlanStatus.cancelled = "cancelled"

abbrev pub step_status_text : PlanStepStatus → String
step_status_text PlanStepStatus.pending_dependency = "pending_dependency"
step_status_text PlanStepStatus.ready = "ready"
step_status_text PlanStepStatus.submitted = "submitted"
step_status_text PlanStepStatus.running = "running"
step_status_text PlanStepStatus.waiting = "waiting"
step_status_text PlanStepStatus.validating_output = "validating_output"
step_status_text PlanStepStatus.completed = "completed"
step_status_text PlanStepStatus.blocked = "blocked"
step_status_text PlanStepStatus.failed = "failed"
step_status_text PlanStepStatus.cancelled = "cancelled"

abbrev pub step_kind_text : StepKind → String
step_kind_text StepKind.specialist = "specialist"
step_kind_text StepKind.lead_review = "lead_review"
