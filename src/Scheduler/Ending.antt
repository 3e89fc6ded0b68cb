-- ===== src/Scheduler/Ending.antt =====
-- `_complete_step` and `_fail_step` (src/mutiai/services/linear_scheduler.py).
use muti_ai.Prelude.{String, none, some, ◌==◌, string_eq, update_where}
use Prim.Native.String.{◌++◌ as append}
use muti_ai.Models.Json.{Json, Fields}
use muti_ai.Models.Task.{Task, TaskStatus, task_status_eq, Assignment, AssignmentStatus}
use muti_ai.Models.Plan.{
  TaskExecutionPlan, TaskExecutionPlanStatus, PlanStep, PlanStepStatus, step_status_eq,
}
use muti_ai.Database.{Session, Draws, later}
use muti_ai.Events.{TaskEvent, append_task_event}
use muti_ai.Scheduler.Delivery.{first_chars}
use muti_ai.Scheduler.Payloads.{str_field}
use muti_ai.Scheduler.Rows.{save_step, save_plan, save_task}

abbrev pub save_assignment : Assignment → Session → Session
save_assignment a s = record s {
  assignments = update_where (λ x. x.assignment_id == a.assignment_id) (λ _. a) s.assignments;
}

-- `execution.result_summary = …` on `assignment.runtime_execution`, if there is one.
abbrev pub summarize_execution : (assignment_id summary : String) → Session → Session
summarize_execution assignment_id summary s = record s {
  executions =
      update_where (λ x. x.assignment_id == assignment_id)
        (λ x. record x { result_summary = some summary }) s.executions;
}

-- An event of a step or of its Assignment.
abbrev pub step_event :
    (event_type aggregate_type aggregate_id source : String) → Assignment → Json → TaskEvent
step_event event_type aggregate_type aggregate_id source a payload = record {
  event_type = event_type;
  aggregate_type = aggregate_type;
  aggregate_id = aggregate_id;
  source = source;
  payload = payload;
  assignment_id = some a.assignment_id;
  runtime_execution_id = none;
}

-- `_complete_step`; `payload` ends the event's payload.
unfoldable pub complete_step :
    Draws → Task → PlanStep → Assignment → (payload : Fields) → Session → Session
complete_step draws task step a payload s =
    append_task_event (later 2 draws) task
      (step_event "plan.step_completed" "plan_step" step.plan_step_id "langgraph" a (
        Json.obj (
          str_field "plan_step_id" step.plan_step_id (
            str_field "step_key" step.step_key
              (str_field "role_key" step.role_key (str_field "status" "completed" payload))))))
      (save_task (record task { updated_at = draws.utc_now 1 })
        (save_step
          (record step { status = PlanStepStatus.completed; completed_at = some (draws.utc_now 0) })
          s))

-- `_fail_step`
unfoldable pub fail_step :
    Draws
    → Task
    → TaskExecutionPlan
    → PlanStep
    → Assignment
    → (reason error : String) → Session
    → Session
unfolding first_chars
fail_step draws task plan step a reason error s =
    let summary =
      append "Product delivery validation failed ("
        (append reason (append "): " (first_chars 1000 error))) in
    append_task_event (later 3 draws) task
      (record {
        event_type = "task.failed";
        aggregate_type = "task";
        aggregate_id = task.task_id;
        source = "langgraph";
        payload = Json.obj (
            str_field "status" "failed"
              (str_field "reason" reason (str_field "plan_step_id" step.plan_step_id Fields.end)));
        assignment_id = none;
        runtime_execution_id = none;
      })
      (append_task_event (later 2 draws) task
        (step_event "assignment.status_changed" "assignment" a.assignment_id "langgraph" a (
          Json.obj (
            str_field "status" "failed"
              (str_field "reason" reason (str_field "summary" summary Fields.end)))))
        (append_task_event (later 1 draws) task
          (step_event "plan.step_failed" "plan_step" step.plan_step_id "langgraph" a (
            Json.obj (
              str_field "plan_step_id" step.plan_step_id (
                str_field "step_key" step.step_key (
                  str_field "status" "failed" (
                    str_field "reason" reason
                      (str_field "error" (first_chars 1000 error) Fields.end)))))))
          (save_task (record task { status = TaskStatus.failed; updated_at = draws.utc_now 0 })
            (summarize_execution a.assignment_id summary (
              save_assignment
                (record a { status = AssignmentStatus.failed; result_summary = some summary })
                (save_plan (record plan { status = TaskExecutionPlanStatus.failed })
                  (save_step (record step { status = PlanStepStatus.failed }) s)))))))
