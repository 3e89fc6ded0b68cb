-- ===== src/Plans/Examples.antt =====
-- Runs of the plan validations (src/mutiai/domain/task_plan.py, src/mutiai/services/task_plans.py).
use muti_ai.Prelude.{
  is_empty, String, ◌≡◌, ◌↔◌, refl, true, not, List, [], ◌∷◌, ok, err, All, All-find?, is_some,
  ◌==◌, string_eq, String-discrete, for_each, ℕ_discrete, ◌≢◌,
}
use muti_ai.Feasibility.{all_unique}
use muti_ai.Organizations.Samples.{team}
use muti_ai.Plans.Spec.{
  ArtifactContractSpec, StepKind, StepKind-discrete, PlanStepSpec, TaskExecutionPlanSpec, PlanError,
  step_of,
}
use muti_ai.Plans.Graph.{order, roots, visit, children}
use muti_ai.Plans.Ancestors.{assert_acyclic}
use muti_ai.Plans.Kahn.{IsSetOrder, IsClean}
use muti_ai.Plans.Acyclic.{
  IsAcyclic, IsClosed, assert_acyclic-IsAcyclic, assert_acyclic-ne-out_of_fuel,
}
use muti_ai.Plans.Validate.{validate_graph_and_contract_flow}
use muti_ai.Plans.Sound.{IsSound, validate_graph_and_contract_flow-IsSound}
use muti_ai.Plans.Shape.{ExecutionShape, last_step, check_step, validate_supported_plan_shape}
use muti_ai.Plans.Review.{ReviewLast, validate_supported_plan_shape-ReviewLast}

abbrev contract : String → ArtifactContractSpec
contract key = record {
  contract_key = key;
  schema_version = "1.0";
  media_type = "text/plain";
  file_name = "out.txt";
}

abbrev step :
    (key role : String)
    → StepKind
    → (depends_on inputs : List String) → List ArtifactContractSpec
    → PlanStepSpec
step key role kind depends_on inputs outputs = record {
  step_key = key;
  role_key = role;
  step_kind = kind;
  objective = "work";
  acceptance_criteria = "done";
  depends_on = depends_on;
  input_contracts = inputs;
  output_contracts = outputs;
}

abbrev pub plan : TaskExecutionPlanSpec
plan = record {
  schema_version = "1.0";
  summary = "";
  initial_input_contracts = "request" ∷ [];
  steps =
      step "build" "dev" StepKind.specialist [] ("request" ∷ []) (contract "code" ∷ [])
      ∷ step "check" "tester" StepKind.specialist [] [] (contract "report" ∷ [])
      ∷ step "review" "lead" StepKind.lead_review ("build" ∷ "check" ∷ []) ("report" ∷ "code" ∷ [])
          []
      ∷ [];
}

-- Sets that are iterated in the order of insertion.
abbrev in_order : List String → List String
in_order xs = xs

in_order-IsSetOrder : IsSetOrder in_order
in_order-IsSetOrder = record { same = λ k xs. refl; once = λ xs h. h }

plan-IsClean : IsClean plan.steps
unfolding all_unique String-discrete
plan-IsClean = record {
  keys = refl;
  deps = λ k s found.
      All-find? (λ x. all_unique x.depends_on ≡ true) (λ x. x.step_key == k) plan.steps s
        (refl, (refl, (refl, tt))) found;
}

plan-IsClosed : IsClosed plan.steps
unfolding String-discrete
plan-IsClosed k s found =
    All-find? (λ x. All (λ y. is_some (step_of y plan.steps) ≡ true) x.depends_on)
      (λ x. x.step_key == k) plan.steps s (tt, (tt, ((refl, (refl, tt)), tt))) found

assert_acyclic-IsAcyclic_example :
    ((a : String → List String) × (assert_acyclic in_order plan.steps ≡ ok a))
    ↔ IsAcyclic plan.steps
assert_acyclic-IsAcyclic_example =
    assert_acyclic-IsAcyclic in_order in_order-IsSetOrder plan.steps plan-IsClean plan-IsClosed

plan_accepted : validate_graph_and_contract_flow in_order plan ≡ ok tt
unfolding validate_graph_and_contract_flow all_unique String-discrete for_each assert_acyclic order
    roots ℕ_discrete visit children
plan_accepted = refl

validate_graph_and_contract_flow-IsSound_example : IsSound plan
validate_graph_and_contract_flow-IsSound_example =
    validate_graph_and_contract_flow-IsSound in_order in_order-IsSetOrder plan plan_accepted

pub plan-IsSound : IsSound plan
plan-IsSound =
    validate_graph_and_contract_flow-IsSound in_order in_order-IsSetOrder plan plan_accepted

validate_supported_plan_shape-ReviewLast_example :
    (first : PlanStepSpec) × (rest : List PlanStepSpec) × (plan.steps ≡ first ∷ rest)
    × (not (is_empty rest) ≡ true)
    × ((last_step first rest).step_kind ≡ StepKind.lead_review)
    × ReviewLast plan.steps first rest
unfolding all_unique String-discrete validate_supported_plan_shape check_step StepKind-discrete
    ℕ_discrete
validate_supported_plan_shape-ReviewLast_example =
    validate_supported_plan_shape-ReviewLast plan team ExecutionShape.parallel refl refl

assert_acyclic-ne-out_of_fuel_example :
    assert_acyclic in_order plan.steps ≢ err PlanError.out_of_fuel
assert_acyclic-ne-out_of_fuel_example =
    assert_acyclic-ne-out_of_fuel in_order in_order-IsSetOrder plan.steps plan-IsClean

-- Two steps that wait for each other are refused.
abbrev cycle : TaskExecutionPlanSpec
cycle = record plan {
  steps =
      step "build" "dev" StepKind.specialist ("check" ∷ []) [] []
      ∷ step "check" "tester" StepKind.specialist ("build" ∷ []) [] []
      ∷ [];
}

cycle_refused : validate_graph_and_contract_flow in_order cycle ≡ err PlanError.dependency_cycle
unfolding validate_graph_and_contract_flow all_unique String-discrete for_each assert_acyclic order
    roots ℕ_discrete visit children
cycle_refused = refl
