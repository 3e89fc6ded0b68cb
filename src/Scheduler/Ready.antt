-- ===== src/Scheduler/Ready.antt =====
-- Which step `prepare_step` (src/mutiai/services/linear_scheduler.py) comes to.
use muti_ai.Prelude.{
  ◌≡◌, ◌∙◌, ap, subst, refl, false, none, some, List, [], ◌∷◌, ◌++◌, arith, ◌==◌, ◌!=◌, any, All,
  Bool-cases, Option-cases, inl, inr,
}
use muti_ai.Models.Task.{Task, Assignment, ProductEvent}
use muti_ai.Models.Plan.{
  TaskExecutionPlan, TaskExecutionPlanStatus, plan_status_eq, PlanStep, PlanStepStatus,
  step_status_eq,
}
use muti_ai.Database.{Session, Draws}
use muti_ai.Events.{append_task_event}
use muti_ai.Scheduler.Rows.{assignment_of, dependency_statuses}
use muti_ai.Scheduler.Assign.{activate_plan}
use muti_ai.Scheduler.Prepare.{NextStep, is_stopped, next_step}

abbrev Completed : PlanStep → Type 0
Completed x = x.status ≡ PlanStepStatus.completed

-- The first step that is not completed; it has not stopped.
pub record IsFirstOpen (steps : List PlanStep) (step : PlanStep) : Type 0 where
  pub before : List PlanStep
  pub after : List PlanStep
  pub split : steps ≡ before ++ step ∷ after
  pub done : All Completed before
  pub undone : (step.status == PlanStepStatus.completed) ≡ false
  pub unstopped : is_stopped step.status ≡ false

-- It has no Assignment, and its dependencies are completed.
pub record IsReady (steps : List PlanStep) (s : Session) (step : PlanStep) : Type 0 where
  pub first : IsFirstOpen steps step
  pub unassigned : assignment_of step.plan_step_id s.assignments ≡ none
  pub met :
      All
        (λ status. status ≡ PlanStepStatus.completed)
        (dependency_statuses step.plan_step_id s.dependencies s.plan_steps)

IsFirstOpen-skip :
    (x : PlanStep) (steps : List PlanStep) (step : PlanStep)
    → Completed x
    → IsFirstOpen steps step
    → IsFirstOpen (x ∷ steps) step
IsFirstOpen-skip x steps step h f = record {
  before = x ∷ f.before;
  after = f.after;
  split = ap (λ l. x ∷ l) f.split;
  done = (h, f.done);
  undone = f.undone;
  unstopped = f.unstopped;
}

not_any-All :
    (xs : List PlanStepStatus)
    → any (λ status. status != PlanStepStatus.completed) xs ≡ false
    → All (λ status. status ≡ PlanStepStatus.completed) xs
not_any-All [] h = tt
not_any-All (x ∷ xs) h = (ground arith, not_any-All xs (ground arith))

pub next_step-IsReady :
    (steps : List PlanStep) (s : Session) (step : PlanStep)
    → next_step steps s ≡ NextStep.dispatch step
    → IsReady steps s step
unfolding next_step
next_step-IsReady [] s step h = cc
next_step-IsReady (x ∷ steps) s step h = elim (Bool-cases (x.status == PlanStepStatus.completed)) [
  | inl done ↦
      let later_ = next_step-IsReady steps s step (ground arith) in
      record {
        first = IsFirstOpen-skip x steps step (ground arith) later_.first;
        unassigned = later_.unassigned;
        met = later_.met;
      }
  | inr undone ↦ elim (Bool-cases (is_stopped x.status)) [
    | inl stopped ↦ absurd (ground arith)
    | inr unstopped ↦ elim (Option-cases (assignment_of x.plan_step_id s.assignments)) [
      | inl (a, found) ↦ absurd (ground arith)
      | inr absent ↦
          elim (Bool-cases (
            any (λ status. status != PlanStepStatus.completed)
              (dependency_statuses x.plan_step_id s.dependencies s.plan_steps))) [
                | inl unmet ↦ absurd (ground arith)
                | inr met ↦
                    let same : x ≡ step = ground arith in
                    subst (IsReady (x ∷ steps) s) same (record {
                      first = record {
                        before = [];
                        after = steps;
                        split = refl;
                        done = tt;
                        undone = undone;
                        unstopped = unstopped;
                      };
                      unassigned = absent;
                      met =
                          not_any-All
                            (dependency_statuses x.plan_step_id s.dependencies s.plan_steps) met;
                    })
              ]
    ]
  ]
]

pub next_step-resume :
    (steps : List PlanStep) (s : Session) (a : Assignment) (step : PlanStep)
    → next_step steps s ≡ NextStep.resume a step
    → IsFirstOpen steps step × (assignment_of step.plan_step_id s.assignments ≡ some a)
unfolding next_step
next_step-resume [] s a step h = cc
next_step-resume (x ∷ steps) s a step h = elim (Bool-cases (x.status == PlanStepStatus.completed)) [
  | inl done ↦
      let (first, found) = next_step-resume steps s a step (ground arith) in
      (IsFirstOpen-skip x steps step (ground arith) first, found)
  | inr undone ↦ elim (Bool-cases (is_stopped x.status)) [
    | inl stopped ↦ absurd (ground arith)
    | inr unstopped ↦ elim (Option-cases (assignment_of x.plan_step_id s.assignments)) [
      | inr absent ↦ absurd (ground arith)
      | inl (b, found) ↦
          let same : x ≡ step = ground arith in
          let that : b ≡ a = ground arith in
          subst
            (λ y. IsFirstOpen (x ∷ steps) y × (assignment_of y.plan_step_id s.assignments ≡ some a))
            same
            (
              record {
                before = [];
                after = steps;
                split = refl;
                done = tt;
                undone = undone;
                unstopped = unstopped;
              },
              found ∙ ap some that,
            )
    ]
  ]
]

-- The activation of the plan does not change what comes next.
next_step-other_tables :
    (steps : List PlanStep) (s : Session) (plans : List TaskExecutionPlan)
    (events : List ProductEvent)
    → next_step steps (record s { plans = plans; events = events }) ≡ next_step steps s
unfolding next_step
next_step-other_tables [] s plans events = refl
next_step-other_tables (x ∷ steps) s plans events =
    rw (next_step-other_tables steps s plans events, next_step) refl

pub next_step-activate_plan :
    (draws : Draws) (task : Task) (plan : TaskExecutionPlan) (steps : List PlanStep) (s : Session)
    → next_step steps (activate_plan draws task plan s).1 ≡ next_step steps s
unfolding activate_plan append_task_event
next_step-activate_plan draws task plan steps s =
    elim (Bool-cases (plan.status != TaskExecutionPlanStatus.validated)) [
      | inl other ↦ rw (other, activate_plan) refl
      | inr validated ↦ rw (validated, activate_plan) (next_step-other_tables steps s _ _)
    ]

pub assignments-activate_plan :
    (draws : Draws) (task : Task) (plan : TaskExecutionPlan) (s : Session)
    → (activate_plan draws task plan s).1.assignments ≡ s.assignments
unfolding activate_plan append_task_event
assignments-activate_plan draws task plan s =
    elim (Bool-cases (plan.status != TaskExecutionPlanStatus.validated)) [
      | inl other ↦ rw (other, activate_plan) refl
      | inr validated ↦ rw (validated, activate_plan) refl
    ]
