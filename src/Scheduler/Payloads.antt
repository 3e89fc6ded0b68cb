-- ===== src/Scheduler/Payloads.antt =====
-- The product events of src/mutiai/services/linear_scheduler.py.
use muti_ai.Prelude.{String, none, some}
use Prim.Native.String.{◌++◌ as append}
use muti_ai.Models.Json.{Json, Fields}
use muti_ai.Models.Task.{Assignment, RuntimeExecution}
use muti_ai.Models.Plan.{
  TaskExecutionPlan, plan_status_text, PlanStep, step_status_text, step_kind_text,
}
use muti_ai.Events.{TaskEvent}

abbrev pub str_field : (key value : String) → Fields → Fields
str_field key value rest = Fields.field key (Json.str value) rest

abbrev pub plan_activated : TaskExecutionPlan → TaskEvent
plan_activated plan = record {
  event_type = "task.execution_plan_activated";
  aggregate_type = "task_execution_plan";
  aggregate_id = plan.plan_id;
  source = "langgraph";
  payload = Json.obj (
      str_field "plan_id" plan.plan_id (
        Fields.field "plan_version" (Json.num plan.plan_version)
          (str_field "status" (plan_status_text plan.status) Fields.end)));
  assignment_id = none;
  runtime_execution_id = none;
}

abbrev pub step_ready : TaskExecutionPlan → PlanStep → TaskEvent
step_ready plan step = record {
  event_type = "plan.step_ready";
  aggregate_type = "plan_step";
  aggregate_id = step.plan_step_id;
  source = "langgraph";
  payload = Json.obj (
      str_field "plan_id" plan.plan_id (
        str_field "plan_step_id" step.plan_step_id (
          str_field "step_key" step.step_key (
            str_field "role_key" step.role_key
              (str_field "status" (step_status_text step.status) Fields.end)))));
  assignment_id = none;
  runtime_execution_id = none;
}

-- The Assignment is new, so that its status is "submitted"; so is that of its execution.
abbrev pub assignment_created : PlanStep → Assignment → TaskEvent
assignment_created step assignment = record {
  event_type = "assignment.created";
  aggregate_type = "assignment";
  aggregate_id = assignment.assignment_id;
  source = "langgraph";
  payload = Json.obj (
      str_field "agent_role_key" step.role_key (
        str_field "plan_step_id" step.plan_step_id (
          str_field "step_key" step.step_key (
            str_field "step_kind" (step_kind_text step.step_kind)
              (str_field "status" "submitted" Fields.end)))));
  assignment_id = some assignment.assignment_id;
  runtime_execution_id = none;
}

abbrev pub execution_submitted : PlanStep → (workspace_id : String) → RuntimeExecution → TaskEvent
execution_submitted step workspace_id execution = record {
  event_type = "runtime.execution_submitted";
  aggregate_type = "runtime_execution";
  aggregate_id = execution.runtime_execution_id;
  source = append "runtime." execution.provider;
  payload = Json.obj (
      str_field "execution_id" execution.execution_id (
        str_field "provider" execution.provider (
          str_field "plan_step_id" step.plan_step_id
            (str_field "workspace_id" workspace_id (str_field "status" "submitted" Fields.end)))));
  assignment_id = some execution.assignment_id;
  runtime_execution_id = some execution.runtime_execution_id;
}

abbrev pub step_changed : PlanStep → Assignment → TaskEvent
step_changed step assignment = record {
  event_type = "plan.step_status_changed";
  aggregate_type = "plan_step";
  aggregate_id = step.plan_step_id;
  source = "langgraph";
  payload = Json.obj (
      str_field "plan_step_id" step.plan_step_id (
        str_field "step_key" step.step_key
          (str_field "status" (step_status_text step.status) Fields.end)));
  assignment_id = some assignment.assignment_id;
  runtime_execution_id = none;
}
