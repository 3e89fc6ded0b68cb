-- ===== src/Scheduler/Examples.antt =====
-- Runs of the scheduler (src/mutiai/services/linear_scheduler.py) on a plan of two steps.
use muti_ai.Prelude.{
  err, ℕ, ◌+◌, String, ◌≡◌, ◌⊎◌, refl, inr, none, some, [], ◌∷◌, ok, String-discrete,
}
use muti_ai.Feasibility.{all_unique}
use muti_ai.Models.Task.{TaskStatus-discrete}
use muti_ai.Models.Plan.{
  TaskExecutionPlan, TaskExecutionPlanStatus, TaskExecutionPlanStatus-discrete,
  PlanStepStatus-discrete, PlanStep, PlanStepStatus,
}
use muti_ai.Models.Samples.{task, assignment, execution}
use muti_ai.Plans.Spec.{StepKind}
use muti_ai.Database.{Session, Draws}
use muti_ai.Events.{append_task_event}
use muti_ai.Scheduler.Assign.{assignment_id, execution_id}
use muti_ai.Scheduler.Types.{Collaborators, IsApart}
use muti_ai.Scheduler.Rows.{step_row, current_plan, steps_of, dependency_statuses}
use muti_ai.Scheduler.Cancel.{cancel_unreachable_steps}
use muti_ai.Scheduler.Cancelled.{change, cancelled_in, cancel_unreachable_steps-row}
use muti_ai.Scheduler.Prepare.{prepare_step}
use muti_ai.Scheduler.Delivery.{PublishError, DeliveryStatus, AssignmentDelivery, Deliveries}
use muti_ai.Scheduler.Finalize.{finalize_step}
use muti_ai.Scheduler.Ended.{Outcome, IsRecorded, finalize_step-Outcome}
use muti_ai.Scheduler.Ready.{IsReady}
use muti_ai.Scheduler.Dispatch.{Wrote, prepare_step-IsReady}

abbrev plan : TaskExecutionPlan
plan = record {
  plan_id = "p";
  task_id = "t";
  organization_spec_version_id = "v";
  plan_version = 1;
  schema_version = "1.0";
  definition_hash = "h";
  source = "lead";
  status = TaskExecutionPlanStatus.validated;
  summary = "";
  validation_summary = none;
  initial_input_contracts = [];
  created_at = 1;
  activated_at = none;
  completed_at = none;
}

abbrev step : (id role : String) → StepKind → ℕ → PlanStepStatus → PlanStep
step id role kind sequence status = record {
  plan_step_id = id;
  plan_id = "p";
  step_key = id;
  role_key = role;
  step_kind = kind;
  sequence = sequence;
  objective = "work";
  acceptance_criteria = "done";
  input_contracts = [];
  output_contracts = [];
  status = status;
  created_at = 1;
  ready_at = none;
  completed_at = none;
}

-- The review stands first in the table, and waits for the build.
abbrev database : Session
database = record {
  tasks = task ∷ [];
  assignments = [];
  executions = [];
  events = [];
  approvals = [];
  policies = [];
  capacities = [];
  plans = plan ∷ [];
  plan_steps =
      step "review" "lead" StepKind.lead_review 1 PlanStepStatus.pending_dependency
      ∷ step "build" "dev" StepKind.specialist 0 PlanStepStatus.ready
      ∷ [];
  dependencies =
      record {
        dependency_id = "d";
        plan_step_id = "review";
        depends_on_step_id = "build";
        created_at = 1;
      }
      ∷ [];
}

abbrev draws : Draws
draws = record { utc_now = λ n. 100 + n; new_id = λ n. "id" }

abbrev collaborators : Collaborators Unit
collaborators = record {
  runtime_provider = "codex";
  ensure_role_workspace = λ t task role_key. (ok "w", t.pending);
  materialize_step_inputs = λ s task step workspace_id. (ok [], s);
  build_instructions = λ s task plan step bindings. ok "do";
  uuid5 = λ name. name;
}

collaborators-IsApart : IsApart collaborators
collaborators-IsApart = record {
  workspace = λ t task role_key. inr refl;
  inputs = λ s task step workspace_id. refl;
}

prepare_step-IsReady_example :
    ((prepare_step collaborators draws "t" database).1.assignments ≡ database.assignments)
    ⊎ ((plan : TaskExecutionPlan) × (step : PlanStep) × (current_plan "t" database.plans
          ≡ some plan)
        × IsReady (steps_of plan.plan_id database.plan_steps) database step
        × Wrote step database.assignments
            (prepare_step collaborators draws "t" database).1.assignments)
prepare_step-IsReady_example =
    prepare_step-IsReady collaborators collaborators-IsApart draws "t" database

-- The build is started, and not the review.
build_started :
    (prepare_step collaborators draws "t" database).0
    ≡ ok (
        some (record {
          assignment_id = "mutiai:assignment:t:build";
          execution_id = "mutiai:execution:t:build";
          role_key = "dev";
          instructions = "do";
          output_schema = StepKind.specialist;
        }))
unfolding prepare_step String-discrete TaskStatus-discrete PlanStepStatus-discrete
    TaskExecutionPlanStatus-discrete append_task_event dependency_statuses assignment_id
    execution_id
build_started = refl

cancel_unreachable_steps-row_example :
    step_row "review"
      (cancel_unreachable_steps draws "t" "parallel_sibling_failed" database).1.plan_steps
    ≡ change (cancelled_in "p" 100) (step_row "review" database.plan_steps)
unfolding all_unique String-discrete current_plan
cancel_unreachable_steps-row_example =
    cancel_unreachable_steps-row draws "t" "parallel_sibling_failed" database task plan "review"
      refl refl refl

-- The build is with the Runtime.
abbrev submitted : Session
submitted = record database {
  plan_steps = step "build" "dev" StepKind.specialist 0 PlanStepStatus.submitted ∷ [];
  assignments = record assignment { plan_step_id = some "build" } ∷ [];
  executions = execution ∷ [];
}

abbrev refused : AssignmentDelivery
refused = record { status = DeliveryStatus.completed; summary = "done"; artifacts = [] }

-- Artifacts that refuse everything.
abbrev deliveries : Deliveries
deliveries = record {
  validate_review = λ text. err "no review";
  validate_delivery = λ text. ok refused;
  publish_assignment_delivery = λ s task a delivery id.
      (err (PublishError.refused (record { code = "MISSING"; message = "no file" })), s);
  lower = λ text. text;
}

deliveries-IsRecorded : IsRecorded deliveries
deliveries-IsRecorded = record {
  steps = λ s task a delivery id. refl;
  tasks = λ s task a delivery id. refl;
  assignments = λ s task a delivery id. refl;
  plans = λ s task a delivery id. refl;
}

finalize_step-Outcome_example :
    Outcome deliveries "build" task
      (record assignment { plan_step_id = some "build" })
      submitted
      (finalize_step "codex" deliveries draws "t" "a" "{}" submitted)
unfolding String-discrete TaskStatus-discrete current_plan
finalize_step-Outcome_example =
    finalize_step-Outcome "codex" deliveries deliveries-IsRecorded draws "t" "a" "build" "{}"
      submitted task (record assignment { plan_step_id = some "build" })
      (step "build" "dev" StepKind.specialist 0 PlanStepStatus.submitted) plan execution refl refl
      refl refl refl refl refl
