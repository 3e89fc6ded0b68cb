-- ===== src/Plans/Create.antt =====
-- `create_task_execution_plan` (src/mutiai/services/task_plans.py).
use muti_ai.Prelude.{
  ℕ, suc, ◌+◌, String, Bool, true, false, ◌||◌, Option, none, some, List, [], ◌∷◌, ◌++◌, Result, ok,
  err, if◌then◌else◌, ltb, ◌==◌, ◌!=◌, string_eq, nat_eq, elem, find?, length, map, is_empty,
}
use Prim.Native.String.{count}
use muti_ai.Models.Json.{Json, Fields}
use muti_ai.Models.Task.{Task}
use muti_ai.Models.Plan.{
  TaskExecutionPlan, TaskExecutionPlanStatus, plan_status_text, PlanStep, PlanStepStatus,
  step_status_text, PlanStepDependency,
}
use muti_ai.Organizations.{OrganizationSpec}
use muti_ai.Database.{Session, Draws, later}
use muti_ai.Events.{TaskEvent, append_task_event}
use muti_ai.Plans.Identity.{
  Identities, plan_definition_hash, deterministic_plan_id, deterministic_plan_step_id,
  deterministic_dependency_id,
}
use muti_ai.Plans.Spec.{PlanStepSpec, TaskExecutionPlanSpec, step_keys}
use muti_ai.Plans.Shape.{ExecutionShape, ShapeError, validate_supported_plan_shape}

-- The values that the check constraint `valid_status` admits.
pub data SpecVersionStatus : Type 0 where
  proposal confirmed published superseded archived : SpecVersionStatus

-- A row of `organization_spec_versions`; the payload is the definition whose JSON it is.
pub record OrganizationSpecVersion : Type 0 where
  pub spec_version_id : String
  pub organization_id : String
  pub owner_user_id : String
  pub version_number : ℕ
  pub status : SpecVersionStatus
  pub spec_payload : OrganizationSpec
  pub source_request : Option String
  pub created_at : ℕ
  pub confirmed_at : Option ℕ
  pub published_at : Option ℕ

-- `unknown_step` is the `KeyError` of `step_by_key[…]`.
pub data CreationError : Type 0 where
  invalid_source invalid_version organization_version_missing version_conflict unknown_step :
      CreationError
  unsupported : ShapeError → CreationError

abbrev shape_text : ExecutionShape → String
shape_text ExecutionShape.linear = "linear"
shape_text ExecutionShape.parallel = "parallel"

abbrev shape_summary : ExecutionShape → String
shape_summary ExecutionShape.linear = "Validated as a strict linear M2.3 plan."
shape_summary ExecutionShape.parallel = "Validated as a pure parallel M2.3 plan."

unfoldable pub existing_plan :
    (task_id : String) (plan_version : ℕ) → List TaskExecutionPlan → Option TaskExecutionPlan
existing_plan task_id plan_version [] = none
existing_plan task_id plan_version (p ∷ plans) =
    let rest = existing_plan task_id plan_version plans in
    if p.task_id == task_id then (if p.plan_version == plan_version then some p else rest) else rest

-- The dependencies of the steps, as pairs of keys.
unfoldable pub edges : List PlanStepSpec → List (String × String)
edges [] = []
edges (step ∷ steps) =
    map (λ dependency. (step.step_key, dependency)) step.depends_on ++ edges steps

module _ (ids : Identities) where
  unfoldable pub new_plan :
      Draws
      → Task
      → TaskExecutionPlanSpec
      → (source : String) (plan_version : ℕ) → ExecutionShape
      → TaskExecutionPlan
  new_plan draws task spec source plan_version shape = record {
    plan_id = deterministic_plan_id ids task.task_id plan_version;
    task_id = task.task_id;
    organization_spec_version_id = task.organization_spec_version_id;
    plan_version = plan_version;
    schema_version = spec.schema_version;
    definition_hash = plan_definition_hash ids spec;
    source = source;
    status = TaskExecutionPlanStatus.validated;
    summary = spec.summary;
    validation_summary = some (shape_summary shape);
    initial_input_contracts = spec.initial_input_contracts;
    created_at = draws.utc_now 0;
    activated_at = none;
    completed_at = none;
  }

  unfoldable pub new_step : Draws → (plan_id : String) (sequence : ℕ) → PlanStepSpec → PlanStep
  new_step draws plan_id sequence spec = record {
    plan_step_id = deterministic_plan_step_id ids plan_id spec.step_key;
    plan_id = plan_id;
    step_key = spec.step_key;
    role_key = spec.role_key;
    step_kind = spec.step_kind;
    sequence = sequence;
    objective = spec.objective;
    acceptance_criteria = spec.acceptance_criteria;
    input_contracts = spec.input_contracts;
    output_contracts = spec.output_contracts;
    status =
        if is_empty spec.depends_on
        then PlanStepStatus.ready
        else PlanStepStatus.pending_dependency;
    created_at = draws.utc_now 1;
    ready_at = if is_empty spec.depends_on then some (draws.utc_now 0) else none;
    completed_at = none;
  }

  -- `enumerate(plan_spec.steps)`
  unfoldable pub new_steps :
      Draws → (plan_id : String) (sequence : ℕ) → List PlanStepSpec → List PlanStep
  unfolding new_step
  new_steps draws plan_id sequence [] = []
  new_steps draws plan_id sequence (spec ∷ specs) =
      new_step draws plan_id sequence spec ∷ new_steps (later 2 draws) plan_id (suc sequence) specs

  unfoldable pub new_dependency : Draws → (plan_id : String) → String × String → PlanStepDependency
  new_dependency draws plan_id (step_key, dependency_key) = record {
    dependency_id = deterministic_dependency_id ids plan_id step_key dependency_key;
    plan_step_id = deterministic_plan_step_id ids plan_id step_key;
    depends_on_step_id = deterministic_plan_step_id ids plan_id dependency_key;
    created_at = draws.utc_now 0;
  }

  unfoldable pub add_dependencies :
      Draws
      → (plan_id : String) (keys : List String) → List (String × String)
      → Session
      → Result CreationError (Unit {0}) × Session
  unfolding new_dependency
  add_dependencies draws plan_id keys [] s = (ok tt, s)
  add_dependencies draws plan_id keys (edge ∷ rest) s =
      let others =
        add_dependencies (later 1 draws) plan_id keys rest
          (record s { dependencies = s.dependencies ++ new_dependency draws plan_id edge ∷ [] }) in
      if elem edge.1 keys then others else (err CreationError.unknown_step, s)

  abbrev plan_created : TaskExecutionPlan → (step_count : ℕ) → ExecutionShape → TaskEvent
  plan_created plan step_count shape = record {
    event_type = "task.execution_plan_created";
    aggregate_type = "task_execution_plan";
    aggregate_id = plan.plan_id;
    source = "product";
    payload = Json.obj (
        Fields.field "plan_id" (Json.str plan.plan_id) (
          Fields.field "plan_version" (Json.num plan.plan_version) (
            Fields.field "definition_hash" (Json.str plan.definition_hash) (
              Fields.field "status" (Json.str (plan_status_text plan.status)) (
                Fields.field "step_count" (Json.num step_count)
                  (Fields.field "execution_shape" (Json.str (shape_text shape)) Fields.end))))));
    assignment_id = none;
    runtime_execution_id = none;
  }

  abbrev step_ready_at_once : (plan_id : String) → PlanStepSpec → TaskEvent
  step_ready_at_once plan_id spec = record {
    event_type = "plan.step_ready";
    aggregate_type = "plan_step";
    aggregate_id = deterministic_plan_step_id ids plan_id spec.step_key;
    source = "product";
    payload = Json.obj (
        Fields.field "plan_id" (Json.str plan_id) (
          Fields.field "plan_step_id"
            (Json.str (deterministic_plan_step_id ids plan_id spec.step_key))
            (Fields.field "step_key" (Json.str spec.step_key) (
              Fields.field "role_key" (Json.str spec.role_key) (
                Fields.field "status" (Json.str (step_status_text PlanStepStatus.ready))
                  Fields.end)))));
    assignment_id = none;
    runtime_execution_id = none;
  }

  -- The last loop: an event for each step that depends on nothing.
  unfoldable pub announce :
      Draws → Task → (plan_id : String) → List PlanStepSpec → Session → Session
  announce draws task plan_id [] s = s
  announce draws task plan_id (spec ∷ specs) s =
      let told = append_task_event draws task (step_ready_at_once plan_id spec) s in
      if is_empty spec.depends_on
      then announce (later 1 draws) task plan_id specs told
      else announce draws task plan_id specs s

  -- The rows and the events of a plan that is not there yet.
  unfoldable pub finish_plan :
      Draws
      → Task
      → TaskExecutionPlanSpec
      → TaskExecutionPlan
      → ExecutionShape
      → Result CreationError (Unit {0}) × Session
      → Result CreationError (TaskExecutionPlan × Bool) × Session
  unfolding announce
  finish_plan draws task spec plan shape (err e, s) = (err e, s)
  finish_plan draws task spec plan shape (ok _, s) = (
    ok (plan, true),
    announce (later 1 draws) task plan.plan_id spec.steps
        (append_task_event draws task (plan_created plan (length spec.steps) shape) s),
  )

  unfoldable pub store_plan :
      Draws
      → Task
      → TaskExecutionPlanSpec
      → TaskExecutionPlan
      → ExecutionShape
      → Session
      → Result CreationError (TaskExecutionPlan × Bool) × Session
  unfolding new_steps add_dependencies edges finish_plan
  store_plan draws task spec plan shape s =
      let drawn = suc (length spec.steps + length spec.steps) in
      finish_plan (later (drawn + length (edges spec.steps)) draws) task spec plan shape (
        add_dependencies (later drawn draws) plan.plan_id (step_keys spec.steps) (edges spec.steps)
          (record s {
            plans = s.plans ++ plan ∷ [];
            plan_steps = s.plan_steps ++ new_steps (later 1 draws) plan.plan_id 0 spec.steps;
          }))

  -- The replay of a plan that is there, or the storing of a new one.
  unfoldable pub replay_or_store :
      Draws
      → Task
      → TaskExecutionPlanSpec
      → (source : String) (plan_version : ℕ) → ExecutionShape
      → Session
      → Result CreationError (TaskExecutionPlan × Bool) × Session
  unfolding existing_plan store_plan new_plan
  replay_or_store draws task spec source plan_version shape s =
      elim (existing_plan task.task_id plan_version s.plans) [
        | some existing ↦
            if existing.definition_hash != plan_definition_hash ids spec
              || (existing.organization_spec_version_id != task.organization_spec_version_id
                  || existing.source != source)
            then (err CreationError.version_conflict, s)
            else (ok (existing, false), s)
        | none ↦
            store_plan draws task spec (new_plan draws task spec source plan_version shape) shape s
      ]

  unfoldable pub create_task_execution_plan :
      Draws
      → List OrganizationSpecVersion
      → Task
      → TaskExecutionPlanSpec
      → (source : String) (plan_version : ℕ) → Session
      → Result CreationError (TaskExecutionPlan × Bool) × Session
  unfolding replay_or_store validate_supported_plan_shape
  create_task_execution_plan draws versions task spec source plan_version s =
      if source == "" || ltb 50 (count source)
      then (err CreationError.invalid_source, s)
      else if ltb plan_version 1
      then (err CreationError.invalid_version, s)
      else elim (find? (λ v. v.spec_version_id == task.organization_spec_version_id) versions) [
        | none ↦ (err CreationError.organization_version_missing, s)
        | some version ↦ elim (validate_supported_plan_shape spec version.spec_payload) [
          | err e ↦ (err (CreationError.unsupported e), s)
          | ok shape ↦ replay_or_store draws task spec source plan_version shape s
        ]
      ]
