-- ===== src/Scheduler/Cancel.antt =====
-- `_cancel_unreachable_steps` (src/mutiai/services/linear_scheduler.py).
use muti_ai.Prelude.{
  ℕ, String, Bool, none, some, List, [], ◌∷◌, Result, ok, err, if◌then◌else◌, ◌==◌, ◌||◌, string_eq,
}
use muti_ai.Models.Json.{Json, Fields}
use muti_ai.Models.Task.{Task}
use muti_ai.Models.Plan.{PlanStep, PlanStepStatus, step_status_eq, step_status_text}
use muti_ai.Database.{Session, Draws, later}
use muti_ai.Events.{TaskEvent, append_task_event}
use muti_ai.Scheduler.Types.{SchedulerError}
use muti_ai.Scheduler.Rows.{task_row, current_plan, steps_of, save_step}

-- `terminal_statuses`
abbrev pub is_terminal : PlanStepStatus → Bool
is_terminal status =
    status == PlanStepStatus.completed
    || (status == PlanStepStatus.blocked
        || (status == PlanStepStatus.failed || status == PlanStepStatus.cancelled))

abbrev pub cancelled_step : ℕ → PlanStep → PlanStep
cancelled_step cancelled_at step = record step {
  status = PlanStepStatus.cancelled;
  completed_at = some cancelled_at;
}

abbrev pub cancelled_event : (reason : String) → PlanStep → TaskEvent
cancelled_event reason step = record {
  event_type = "plan.step_cancelled";
  aggregate_type = "plan_step";
  aggregate_id = step.plan_step_id;
  source = "langgraph";
  payload = Json.obj (
      Fields.field "plan_step_id" (Json.str step.plan_step_id) (
        Fields.field "step_key" (Json.str step.step_key) (
          Fields.field "status" (Json.str (step_status_text PlanStepStatus.cancelled))
            (Fields.field "reason" (Json.str reason) Fields.end))));
  assignment_id = none;
  runtime_execution_id = none;
}

-- The body of the loop on a step that is not terminal.
unfoldable pub cancel_step :
    Draws → Task → (reason : String) (cancelled_at : ℕ) → PlanStep → Session → Session
cancel_step draws task reason cancelled_at step s =
    append_task_event draws task (cancelled_event reason step)
      (save_step (cancelled_step cancelled_at step) s)

unfoldable pub cancel_steps :
    Draws → Task → (reason : String) (cancelled_at : ℕ) → List PlanStep → Session → Session
unfolding cancel_step
cancel_steps draws task reason cancelled_at [] s = s
cancel_steps draws task reason cancelled_at (step ∷ steps) s =
    if is_terminal step.status
    then cancel_steps draws task reason cancelled_at steps s
    else cancel_steps (later 1 draws) task reason cancelled_at steps
        (cancel_step draws task reason cancelled_at step s)

unfoldable pub cancel_unreachable_steps :
    Draws → (task_id reason : String) → Session → Result SchedulerError (Unit {0}) × Session
unfolding cancel_steps
cancel_unreachable_steps draws task_id reason s = elim (task_row task_id s.tasks) [
  | none ↦ (err SchedulerError.records_unavailable, s)
  | some task ↦ elim (current_plan task_id s.plans) [
    | none ↦ (err SchedulerError.records_unavailable, s)
    | some plan ↦ (
      ok tt,
      cancel_steps (later 1 draws) task reason (draws.utc_now 0)
          (steps_of plan.plan_id s.plan_steps) s,
    )
  ]
]
