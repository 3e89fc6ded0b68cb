-- ===== src/Models/Samples.antt =====
-- A task, its assignment and its execution (src/mutiai/models/task.py), for the examples.
use muti_ai.Prelude.{none}
use muti_ai.Models.Json.{Json}
use muti_ai.Models.Task.{
  Task, TaskStatus, TaskOrchestrationMode, Assignment, AssignmentStatus, AssignmentKind,
  RuntimeExecution, RuntimeExecutionStatus, UsageStatus,
}

abbrev pub task : Task
task = record {
  task_id = "t";
  owner_user_id = "u";
  organization_id = "o";
  organization_spec_version_id = "v";
  request_text = "build";
  capability_requirements = Json.null;
  request_hash = "h";
  idempotency_key = "k";
  orchestration_mode = TaskOrchestrationMode.planned;
  status = TaskStatus.running;
  result_summary = none;
  created_at = 1;
  updated_at = 1;
  completed_at = none;
}

abbrev pub assignment : Assignment
assignment = record {
  assignment_id = "a";
  task_id = "t";
  assignment_key = "k";
  assignment_kind = AssignmentKind.plan_step;
  agent_role_key = "dev";
  instructions = "do";
  acceptance_criteria = "done";
  execution_id = "e";
  plan_step_id = none;
  status = AssignmentStatus.submitted;
  result_summary = none;
  created_at = 1;
  completed_at = none;
}

abbrev pub execution : RuntimeExecution
execution = record {
  runtime_execution_id = "x";
  execution_id = "e";
  assignment_id = "a";
  provider = "codex";
  runtime_binding_id = none;
  runtime_binding_key = none;
  requested_model = none;
  actual_model = none;
  reasoning_effort = none;
  security_mode = none;
  approval_policy = none;
  sandbox_mode = none;
  network_access = none;
  status = RuntimeExecutionStatus.submitted;
  runtime_job_id = none;
  runtime_event_id = none;
  thread_id = none;
  turn_id = none;
  workspace_id = none;
  last_event_position = none;
  result_summary = none;
  wait_reason = none;
  reserved_tokens = 0;
  charged_tokens = none;
  usage_status = UsageStatus.pending;
  input_tokens = none;
  cached_input_tokens = none;
  output_tokens = none;
  reasoning_output_tokens = none;
  total_tokens = none;
  context_compactions = 0;
  admitted_at = none;
  budget_settled_at = none;
  created_at = 1;
  started_at = none;
  completed_at = none;
}
