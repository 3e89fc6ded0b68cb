-- ===== src/Models/Task.antt =====
-- src/mutiai/models/task.py
use muti_ai.Prelude.{ℕ, Bool, String, Option, Eq}
use muti_ai.Models.Json.{Json}

pub data TaskStatus : Type 0 where
  created planning running waiting needs_revision completed failed cancelled : TaskStatus

pub data TaskOrchestrationMode : Type 0 where
  legacy planned : TaskOrchestrationMode

pub data AssignmentStatus : Type 0 where
  pending submitted running waiting completed failed cancelled : AssignmentStatus

pub data AssignmentKind : Type 0 where
  legacy legacy_specialist legacy_lead_review lead_plan plan_step : AssignmentKind

pub data RuntimeExecutionStatus : Type 0 where
  submitted running waiting completed failed cancelled : RuntimeExecutionStatus

-- The values that the check constraint `valid_usage_status` admits.
pub data UsageStatus : Type 0 where
  pending reported unavailable : UsageStatus

unfoldable pub TaskStatus-discrete : Discrete TaskStatus
TaskStatus-discrete = hlevel

unfoldable pub AssignmentStatus-discrete : Discrete AssignmentStatus
AssignmentStatus-discrete = hlevel

unfoldable pub RuntimeExecutionStatus-discrete : Discrete RuntimeExecutionStatus
RuntimeExecutionStatus-discrete = hlevel

instance abbrev pub task_status_eq : Eq TaskStatus
task_status_eq = record { discrete = TaskStatus-discrete }

instance abbrev pub assignment_status_eq : Eq AssignmentStatus
assignment_status_eq = record { discrete = AssignmentStatus-discrete }

instance abbrev pub execution_status_eq : Eq RuntimeExecutionStatus
execution_status_eq = record { discrete = RuntimeExecutionStatus-discrete }

pub record Task : Type 0 where
  pub task_id : String
  pub owner_user_id : String
  pub organization_id : String
  pub organization_spec_version_id : String
  pub request_text : String
  pub capability_requirements : Json
  pub request_hash : String
  pub idempotency_key : String
  pub orchestration_mode : TaskOrchestrationMode
  pub status : TaskStatus
  pub result_summary : Option String
  pub created_at : ℕ
  pub updated_at : ℕ
  pub completed_at : Option ℕ

pub record Assignment : Type 0 where
  pub assignment_id : String
  pub task_id : String
  pub assignment_key : String
  pub assignment_kind : AssignmentKind
  pub agent_role_key : String
  pub instructions : String
  pub acceptance_criteria : String
  pub execution_id : String
  pub plan_step_id : Option String
  pub status : AssignmentStatus
  pub result_summary : Option String
  pub created_at : ℕ
  pub completed_at : Option ℕ

pub record RuntimeExecution : Type 0 where
  pub runtime_execution_id : String
  pub execution_id : String
  pub assignment_id : String
  pub provider : String
  pub runtime_binding_id : Option String
  pub runtime_binding_key : Option String
  pub requested_model : Option String
  pub actual_model : Option String
  pub reasoning_effort : Option String
  pub security_mode : Option String
  pub approval_policy : Option String
  pub sandbox_mode : Option String
  pub network_access : Option Bool
  pub status : RuntimeExecutionStatus
  pub runtime_job_id : Option String
  pub runtime_event_id : Option String
  pub thread_id : Option String
  pub turn_id : Option String
  pub workspace_id : Option String
  pub last_event_position : Option String
  pub result_summary : Option String
  pub wait_reason : Option String
  pub reserved_tokens : ℕ
  pub charged_tokens : Option ℕ
  pub usage_status : UsageStatus
  pub input_tokens : Option ℕ
  pub cached_input_tokens : Option ℕ
  pub output_tokens : Option ℕ
  pub reasoning_output_tokens : Option ℕ
  pub total_tokens : Option ℕ
  pub context_compactions : ℕ
  pub admitted_at : Option ℕ
  pub budget_settled_at : Option ℕ
  pub created_at : ℕ
  pub started_at : Option ℕ
  pub completed_at : Option ℕ

pub record ProductEvent : Type 0 where
  pub event_id : String
  pub event_type : String
  pub schema_version : String
  pub aggregate_type : String
  pub aggregate_id : String
  pub task_id : String
  pub assignment_id : Option String
  pub runtime_execution_id : Option String
  pub sequence : ℕ
  pub occurred_at : ℕ
  pub source : String
  pub correlation_id : String
  pub payload : Json
