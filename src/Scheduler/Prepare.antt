-- ===== src/Scheduler/Prepare.antt =====
-- `prepare_step` and `prepare_parallel_specialists` (src/mutiai/services/linear_scheduler.py).
use muti_ai.Prelude.{
  String, Bool, Option, none, some, List, [], ◌∷◌, ◌++◌, Result, ok, err, if◌then◌else◌, ◌==◌, ◌!=◌,
  ◌||◌, any, filter, string_eq,
}
use muti_ai.Models.Task.{Task, TaskStatus, task_status_eq, Assignment}
use muti_ai.Models.Plan.{TaskExecutionPlan, PlanStep, PlanStepStatus, step_status_eq}
use muti_ai.Plans.Spec.{StepKind, step_kind_eq}
use muti_ai.Database.{Session, Draws, later}
use muti_ai.Scheduler.Types.{SchedulerError, StepWork, Transaction, Collaborators}
use muti_ai.Scheduler.Rows.{task_row, current_plan, steps_of, assignment_of, dependency_statuses}
use muti_ai.Scheduler.Assign.{activate_plan, work_for_step, create_assignment}

-- What the loop of `prepare_step` comes to: nothing, an Assignment that is there, or a step to start.
pub data NextStep : Type 0 where
  idle : NextStep
  resume : Assignment → PlanStep → NextStep
  dispatch : PlanStep → NextStep

abbrev pub is_stopped : PlanStepStatus → Bool
is_stopped status =
    status == PlanStepStatus.blocked
    || (status == PlanStepStatus.failed || status == PlanStepStatus.cancelled)

unfoldable pub next_step : List PlanStep → Session → NextStep
next_step [] s = NextStep.idle
next_step (step ∷ steps) s =
    if step.status == PlanStepStatus.completed
    then next_step steps s
    else if is_stopped step.status
    then NextStep.idle
    else elim (assignment_of step.plan_step_id s.assignments) [
      | some assignment ↦ NextStep.resume assignment step
      | none ↦
          if any (λ status. status != PlanStepStatus.completed)
            (dependency_statuses step.plan_step_id s.dependencies s.plan_steps)
          then NextStep.idle
          else NextStep.dispatch step
    ]

abbrev pub is_over : TaskStatus → Bool
is_over status =
    status == TaskStatus.completed
    || (status == TaskStatus.needs_revision
        || (status == TaskStatus.failed || status == TaskStatus.cancelled))

module _ {Binding : Type 0} (c : Collaborators Binding) where
  -- The end of `prepare_step` where an Assignment is created, and of the commit.
  unfoldable pub finish_dispatch :
      PlanStep
      → Result SchedulerError Assignment × Transaction
      → Result SchedulerError (Option StepWork) × Session
  finish_dispatch step (err e, t) = (err e, t.committed)
  finish_dispatch step (ok assignment, t) = (ok (some (work_for_step assignment step)), t.pending)

  -- The returns of the loop. A session that is not committed leaves `t.committed` as it was.
  unfoldable pub perform :
      Draws
      → Task
      → TaskExecutionPlan
      → Transaction
      → NextStep
      → Result SchedulerError (Option StepWork) × Session
  unfolding create_assignment finish_dispatch
  perform draws task plan t NextStep.idle = (ok none, t.committed)
  perform draws task plan t (NextStep.resume assignment step) =
      (ok (some (work_for_step assignment step)), t.committed)
  perform draws task plan t (NextStep.dispatch step) =
      finish_dispatch step (create_assignment c draws task plan step t)

  unfoldable pub prepare_under :
      Draws → Task → TaskExecutionPlan → Session → Result SchedulerError (Option StepWork) × Session
  unfolding activate_plan next_step perform
  prepare_under draws task plan s =
      let (plan', activated) = activate_plan draws task plan s in
      perform (later 2 draws) task plan' (record { committed = s; pending = activated })
        (next_step (steps_of plan.plan_id s.plan_steps) activated)

  unfoldable pub prepare_step :
      Draws → (task_id : String) → Session → Result SchedulerError (Option StepWork) × Session
  unfolding prepare_under current_plan steps_of
  prepare_step draws task_id s = elim (task_row task_id s.tasks) [
    | none ↦ (err SchedulerError.no_task, s)
    | some task ↦
        if is_over task.status then (ok none, s) else elim (current_plan task_id s.plans) [
          | none ↦ (err SchedulerError.no_plan, s)
          | some plan ↦ prepare_under draws task plan s
        ]
  ]

  -- The loop of `prepare_parallel_specialists`; an answer before its end is not committed.
  unfoldable pub prepare_specialists :
      Draws
      → Task
      → TaskExecutionPlan
      → List PlanStep
      → (work : List StepWork) → Transaction
      → Result SchedulerError (List StepWork) × Session
  unfolding create_assignment
  prepare_specialists draws task plan [] work t = (ok work, t.pending)
  prepare_specialists draws task plan (step ∷ steps) work t =
      let skipped = prepare_specialists draws task plan steps work t in
      let created = create_assignment c draws task plan step t in
      if step.status == PlanStepStatus.completed
      then skipped
      else if any (λ d. d.plan_step_id == step.plan_step_id) t.pending.dependencies
      then (err SchedulerError.dependent_specialist, t.committed)
      else if is_stopped step.status
      then (ok [], t.committed)
      else elim (assignment_of step.plan_step_id t.pending.assignments) [
        | some assignment ↦
            prepare_specialists draws task plan steps (work ++ work_for_step assignment step ∷ []) t
        | none ↦ elim created.0 [
          | err e ↦ (err e, created.1.committed)
          | ok assignment ↦
              prepare_specialists (later 10 draws) task plan steps
                (work ++ work_for_step assignment step ∷ []) created.1
        ]
      ]

  unfoldable pub prepare_wave :
      Draws → Task → TaskExecutionPlan → Session → Result SchedulerError (List StepWork) × Session
  unfolding activate_plan prepare_specialists
  prepare_wave draws task plan s =
      let (plan', activated) = activate_plan draws task plan s in
      prepare_specialists (later 2 draws) task plan'
        (filter (λ x. x.step_kind == StepKind.specialist) (steps_of plan.plan_id s.plan_steps)) []
        (record { committed = s; pending = activated })

  unfoldable pub prepare_parallel_specialists :
      Draws → (task_id : String) → Session → Result SchedulerError (List StepWork) × Session
  unfolding prepare_wave current_plan steps_of
  prepare_parallel_specialists draws task_id s = elim (task_row task_id s.tasks) [
    | none ↦ (err SchedulerError.no_task, s)
    | some task ↦
        if task.status == TaskStatus.completed
          || (task.status == TaskStatus.needs_revision || task.status == TaskStatus.cancelled)
        then (ok [], s)
        else elim (current_plan task_id s.plans) [
          | none ↦ (err SchedulerError.no_plan, s)
          | some plan ↦ prepare_wave draws task plan s
        ]
  ]
