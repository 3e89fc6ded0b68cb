-- ===== src/Scheduler/Assign.antt =====
-- `_activate_plan`, `_create_assignment` and `_work_for_step` (src/mutiai/services/linear_scheduler.py).
use muti_ai.Prelude.{
  String, none, some, List, [], ◌∷◌, ◌++◌, Result, ok, err, if◌then◌else◌, ◌!=◌, get_or,
}
use Prim.Native.String.{◌++◌ as append}
use muti_ai.Models.Task.{
  Task, TaskStatus, Assignment, AssignmentStatus, AssignmentKind, RuntimeExecution,
  RuntimeExecutionStatus, UsageStatus,
}
use muti_ai.Models.Plan.{
  TaskExecutionPlan, TaskExecutionPlanStatus, plan_status_eq, PlanStep, PlanStepStatus,
  step_status_eq,
}
use muti_ai.Database.{Session, Draws, later}
use muti_ai.Events.{append_task_event}
use muti_ai.Scheduler.Types.{SchedulerError, StepWork, Transaction, Collaborators}
use muti_ai.Scheduler.Rows.{save_step, save_plan, save_task}
use muti_ai.Scheduler.Payloads.{
  plan_activated, step_ready, assignment_created, execution_submitted, step_changed,
}

unfoldable pub activate_plan :
    Draws → Task → TaskExecutionPlan → Session → TaskExecutionPlan × Session
activate_plan draws task plan s =
    if plan.status != TaskExecutionPlanStatus.validated
    then (plan, s)
    else let active_ = record plan {
      status = TaskExecutionPlanStatus.active;
      activated_at = some (get_or plan.activated_at (draws.utc_now 0));
    } in
      (
        active_,
        append_task_event (later 1 draws) task (plan_activated active_) (save_plan active_ s),
      )

abbrev pub work_for_step : Assignment → PlanStep → StepWork
work_for_step assignment step = record {
  assignment_id = assignment.assignment_id;
  execution_id = assignment.execution_id;
  role_key = assignment.agent_role_key;
  instructions = assignment.instructions;
  output_schema = step.step_kind;
}

-- The step as it is when it is ready.
unfoldable pub make_ready :
    Draws → Task → TaskExecutionPlan → PlanStep → Session → PlanStep × Session
make_ready draws task plan step s =
    let ready_ = record step { status = PlanStepStatus.ready; ready_at = some (draws.utc_now 0) } in
    if step.status != PlanStepStatus.ready
    then (
      ready_,
      append_task_event (later 1 draws) task (step_ready plan ready_) (save_step ready_ s),
    )
    else (step, s)

module _ {Binding : Type 0} (c : Collaborators Binding) where
  unfoldable pub assignment_id : (task_id step_key : String) → String
  assignment_id task_id step_key =
      c.uuid5 (append "mutiai:assignment:" (append task_id (append ":" step_key)))

  unfoldable pub execution_id : (task_id step_key : String) → String
  execution_id task_id step_key =
      c.uuid5 (append "mutiai:execution:" (append task_id (append ":" step_key)))

  unfoldable pub new_assignment : Draws → Task → PlanStep → (instructions : String) → Assignment
  new_assignment draws task step instructions = record {
    assignment_id = assignment_id task.task_id step.step_key;
    task_id = task.task_id;
    assignment_key = append "plan_step:" step.step_key;
    assignment_kind = AssignmentKind.plan_step;
    agent_role_key = step.role_key;
    instructions = instructions;
    acceptance_criteria = step.acceptance_criteria;
    execution_id = execution_id task.task_id step.step_key;
    plan_step_id = some step.plan_step_id;
    status = AssignmentStatus.submitted;
    result_summary = none;
    created_at = draws.utc_now 0;
    completed_at = none;
  }

  unfoldable pub new_execution : Draws → Assignment → (workspace_id : String) → RuntimeExecution
  new_execution draws assignment workspace_id = record {
    runtime_execution_id = draws.new_id 0;
    execution_id = assignment.execution_id;
    assignment_id = assignment.assignment_id;
    provider = c.runtime_provider;
    runtime_binding_id = none;
    runtime_binding_key = none;
    requested_model = none;
    actual_model = none;
    reasoning_effort = none;
    security_mode = none;
    approval_policy = none;
    sandbox_mode = none;
    network_access = none;
    status = RuntimeExecutionStatus.submitted;
    runtime_job_id = none;
    runtime_event_id = none;
    thread_id = none;
    turn_id = none;
    workspace_id = some workspace_id;
    last_event_position = none;
    result_summary = none;
    wait_reason = none;
    reserved_tokens = 0;
    charged_tokens = none;
    usage_status = UsageStatus.pending;
    input_tokens = none;
    cached_input_tokens = none;
    output_tokens = none;
    reasoning_output_tokens = none;
    total_tokens = none;
    context_compactions = 0;
    admitted_at = none;
    budget_settled_at = none;
    created_at = draws.utc_now 1;
    started_at = none;
    completed_at = none;
  }

  -- What `_create_assignment` writes once it has the instructions.
  unfoldable pub submit :
      Draws
      → Task
      → PlanStep
      → (workspace_id : String) → Assignment
      → RuntimeExecution
      → Session
      → Session
  submit draws task step workspace_id assignment execution s =
      let submitted_ = record step { status = PlanStepStatus.submitted } in
      append_task_event (later 3 draws) task (step_changed submitted_ assignment) (
        append_task_event (later 2 draws) task (execution_submitted step workspace_id execution) (
          append_task_event (later 1 draws) task (assignment_created step assignment) (
            save_task (record task { status = TaskStatus.running; updated_at = draws.utc_now 0 })
              (save_step submitted_ (record s {
                assignments = s.assignments ++ assignment ∷ [];
                executions = s.executions ++ execution ∷ [];
              })))))

  abbrev gave_up : SchedulerError → Session → Result SchedulerError Assignment × Transaction
  gave_up e s = (err e, record { committed = s; pending = s })

  -- `_create_assignment` after `materialize_step_inputs` and `_build_instructions`.
  unfoldable pub assign_instructed :
      Draws
      → Task
      → PlanStep
      → (workspace_id : String) → Session
      → Result SchedulerError String
      → Result SchedulerError Assignment × Transaction
  unfolding new_assignment new_execution submit
  assign_instructed draws task step workspace_id s (err e) = gave_up e s
  assign_instructed draws task step workspace_id s (ok instructions) =
      let assignment = new_assignment draws task step instructions in
      (
        ok assignment,
        record {
          committed = s;
          pending =
              submit (later 2 draws) task step workspace_id assignment
                (new_execution draws assignment workspace_id) s;
        },
      )

  unfoldable pub assign_bound :
      Draws
      → Task
      → TaskExecutionPlan
      → PlanStep
      → (workspace_id : String) → Result SchedulerError (List Binding) × Session
      → Result SchedulerError Assignment × Transaction
  unfolding assign_instructed
  assign_bound draws task plan step workspace_id (err e, s) = gave_up e s
  assign_bound draws task plan step workspace_id (ok bindings, s) =
      assign_instructed draws task step workspace_id s
        (c.build_instructions s task plan step bindings)

  -- `_create_assignment` after `ensure_role_workspace`.
  unfoldable pub assign_housed :
      Draws
      → Task
      → TaskExecutionPlan
      → PlanStep
      → Result SchedulerError String × Session
      → Result SchedulerError Assignment × Transaction
  unfolding assign_bound
  assign_housed draws task plan step (err e, s) = gave_up e s
  assign_housed draws task plan step (ok workspace_id, s) =
      assign_bound draws task plan step workspace_id
        (c.materialize_step_inputs s task step workspace_id)

  unfoldable pub create_assignment :
      Draws
      → Task
      → TaskExecutionPlan
      → PlanStep
      → Transaction
      → Result SchedulerError Assignment × Transaction
  unfolding make_ready assign_housed
  create_assignment draws task plan step t =
      let (step', readied) = make_ready draws task plan step t.pending in
      assign_housed (later 2 draws) task plan step' (
        c.ensure_role_workspace (record { committed = t.committed; pending = readied }) task
          step'.role_key)
