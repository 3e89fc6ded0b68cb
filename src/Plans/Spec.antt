-- ===== src/Plans/Spec.antt =====
-- The specification of a plan (src/mutiai/domain/task_plan.py).
use muti_ai.Prelude.{String, List, Option, ◌==◌, string_eq, find?, map, Eq}

pub record ArtifactContractSpec : Type 0 where
  pub contract_key : String
  pub schema_version : String
  pub media_type : String
  pub file_name : String

pub data StepKind : Type 0 where
  specialist lead_review : StepKind

unfoldable pub StepKind-discrete : Discrete StepKind
StepKind-discrete = hlevel

instance abbrev pub step_kind_eq : Eq StepKind
step_kind_eq = record { discrete = StepKind-discrete }

pub record PlanStepSpec : Type 0 where
  pub step_key : String
  pub role_key : String
  pub step_kind : StepKind
  pub objective : String
  pub acceptance_criteria : String
  pub depends_on : List String
  pub input_contracts : List String
  pub output_contracts : List ArtifactContractSpec

pub record TaskExecutionPlanSpec : Type 0 where
  pub schema_version : String
  pub summary : String
  pub initial_input_contracts : List String
  pub steps : List PlanStepSpec

-- The errors that the code raises, and a loop that ran out of fuel.
pub data PlanError : Type 0 where
  duplicate_step_key duplicate_dependencies multiple_producers : String → PlanError
  unknown_dependency : (step_key dependency : String) → PlanError
  depends_on_itself : String → PlanError
  dependency_cycle : PlanError
  no_ancestor_producer : (step_key contract_key : String) → PlanError
  out_of_fuel : PlanError

-- `step_by_key.get(key)`; the dict is the list of its steps, each under its own key.
abbrev pub step_of : String → List PlanStepSpec → Option PlanStepSpec
step_of key steps = find? (λ s. s.step_key == key) steps

abbrev pub step_keys : List PlanStepSpec → List String
step_keys steps = map (λ s. s.step_key) steps
