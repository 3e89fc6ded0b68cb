-- ===== src/Scheduler/Rows.antt =====
-- The queries and writes of src/mutiai/services/linear_scheduler.py.
use muti_ai.Prelude.{
  String, Option, none, some, List, [], ◌∷◌, if◌then◌else◌, leb, ◌==◌, string_eq, option_eq, find?,
  filter, update_where,
}
use muti_ai.Models.Task.{Task, Assignment}
use muti_ai.Models.Plan.{TaskExecutionPlan, PlanStep, PlanStepStatus, PlanStepDependency}
use muti_ai.Database.{Session}

-- `session.get(…, id)`
abbrev pub task_row : String → List Task → Option Task
task_row id rows = find? (λ t. t.task_id == id) rows

abbrev pub step_row : String → List PlanStep → Option PlanStep
step_row id rows = find? (λ x. x.plan_step_id == id) rows

abbrev pub assignment_row : String → List Assignment → Option Assignment
assignment_row id rows = find? (λ a. a.assignment_id == id) rows

-- The later version of two plans.
abbrev pub later_plan : TaskExecutionPlan → Option TaskExecutionPlan → TaskExecutionPlan
later_plan p none = p
later_plan p (some q) = if leb q.plan_version p.plan_version then p else q

-- `_current_plan`: `order_by(plan_version.desc()).limit(1)`
unfoldable pub current_plan : String → List TaskExecutionPlan → Option TaskExecutionPlan
current_plan task_id [] = none
current_plan task_id (p ∷ plans) =
    let rest = current_plan task_id plans in
    if p.task_id == task_id then some (later_plan p rest) else rest

-- `order_by(PlanStep.sequence)`
unfoldable pub insert_step : PlanStep → List PlanStep → List PlanStep
insert_step x [] = x ∷ []
insert_step x (y ∷ ys) =
    let rest = insert_step x ys in if leb x.sequence y.sequence then x ∷ y ∷ ys else y ∷ rest

unfoldable pub by_sequence : List PlanStep → List PlanStep
unfolding insert_step
by_sequence [] = []
by_sequence (x ∷ xs) = insert_step x (by_sequence xs)

unfoldable pub steps_of : String → List PlanStep → List PlanStep
unfolding by_sequence
steps_of plan_id rows = by_sequence (filter (λ x. x.plan_id == plan_id) rows)

abbrev pub assignment_of : String → List Assignment → Option Assignment
assignment_of plan_step_id rows = find? (λ a. a.plan_step_id == some plan_step_id) rows

-- `select(PlanStep.status).join(PlanStepDependency, …)`
unfoldable pub dependency_statuses :
    String → List PlanStepDependency → List PlanStep → List PlanStepStatus
dependency_statuses plan_step_id [] rows = []
dependency_statuses plan_step_id (d ∷ ds) rows =
    let rest = dependency_statuses plan_step_id ds rows in
    if d.plan_step_id == plan_step_id
    then elim (step_row d.depends_on_step_id rows) [ none ↦ rest | some x ↦ x.status ∷ rest ]
    else rest

-- Assigning to the attributes of a row object.
abbrev pub save_step : PlanStep → Session → Session
save_step step s = record s {
  plan_steps = update_where (λ x. x.plan_step_id == step.plan_step_id) (λ _. step) s.plan_steps;
}

abbrev pub save_plan : TaskExecutionPlan → Session → Session
save_plan plan s = record s {
  plans = update_where (λ p. p.plan_id == plan.plan_id) (λ _. plan) s.plans;
}

abbrev pub save_task : Task → Session → Session
save_task task s = record s {
  tasks = update_where (λ t. t.task_id == task.task_id) (λ _. task) s.tasks;
}
