-- ===== src/Plans/Validate.antt =====
-- `validate_graph_and_contract_flow` (src/mutiai/domain/task_plan.py).
use muti_ai.Prelude.{
  String, Bool, false, not, Option, none, some, List, [], ◌∷◌, ◌++◌, Result, ok, err, ◌>>=◌, ◌>>◌,
  for_each, if◌then◌else◌, ◌==◌, string_eq, is_some, elem,
}
use muti_ai.Feasibility.{all_unique}
use muti_ai.Plans.Spec.{
  ArtifactContractSpec, PlanStepSpec, TaskExecutionPlanSpec, PlanError, step_of,
}
use muti_ai.Plans.Ancestors.{assert_acyclic}

-- `output_producer.get(contract_key)`
unfoldable pub producer_of : String → List (String × String) → Option String
producer_of key [] = none
producer_of key ((k, v) ∷ producers) = if k == key then some v else producer_of key producers

-- `for contract in step.output_contracts`
unfoldable pub collect_outputs :
    (step_key : String)
    → List ArtifactContractSpec
    → (output_producer : List (String × String)) → Result PlanError (List (String × String))
unfolding producer_of
collect_outputs step_key [] producers = ok producers
collect_outputs step_key (contract ∷ contracts) producers =
    let rest =
      collect_outputs step_key contracts (producers ++ (contract.contract_key, step_key) ∷ []) in
    if is_some (producer_of contract.contract_key producers)
    then err (PlanError.multiple_producers contract.contract_key)
    else rest

-- The first loop over the steps.
unfoldable pub collect :
    List PlanStepSpec
    → (step_by_key : List PlanStepSpec) (output_producer : List (String × String))
    → Result PlanError (List PlanStepSpec × List (String × String))
collect [] steps producers = ok (steps, producers)
collect (step ∷ rest) steps producers =
    let others =
      collect_outputs step.step_key step.output_contracts producers
      >>= collect rest (steps ++ step ∷ []) in
    if is_some (step_of step.step_key steps)
    then err (PlanError.duplicate_step_key step.step_key)
    else if not (all_unique step.depends_on)
    then err (PlanError.duplicate_dependencies step.step_key)
    else others

unfoldable pub check_dependency :
    List PlanStepSpec → PlanStepSpec → String → Result PlanError (Unit {0})
check_dependency steps step dependency =
    if not (is_some (step_of dependency steps))
    then err (PlanError.unknown_dependency step.step_key dependency)
    else if dependency == step.step_key
    then err (PlanError.depends_on_itself step.step_key)
    else ok tt

unfoldable pub check_dependencies : List PlanStepSpec → PlanStepSpec → Result PlanError (Unit {0})
unfolding check_dependency
check_dependencies steps step = for_each (check_dependency steps step) step.depends_on

-- `producer is None or producer not in ancestors[step.step_key]`
abbrev pub has_ancestor_producer : Option String → List String → Bool
has_ancestor_producer none ancestors = false
has_ancestor_producer (some producer) ancestors = elem producer ancestors

unfoldable pub check_input :
    (initial : List String) (output_producer : List (String × String))
    (ancestors : String → List String)
    → PlanStepSpec
    → String
    → Result PlanError (Unit {0})
unfolding producer_of
check_input initial producers ancestors step contract_key =
    if elem contract_key initial
    then ok tt
    else if has_ancestor_producer (producer_of contract_key producers) (ancestors step.step_key)
    then ok tt
    else err (PlanError.no_ancestor_producer step.step_key contract_key)

unfoldable pub check_inputs :
    (initial : List String) (output_producer : List (String × String))
    (ancestors : String → List String)
    → PlanStepSpec
    → Result PlanError (Unit {0})
unfolding check_input
check_inputs initial producers ancestors step =
    for_each (check_input initial producers ancestors step) step.input_contracts

module _ (set_order : List String → List String) where
  unfoldable pub validate_flow :
      TaskExecutionPlanSpec
      → List PlanStepSpec × List (String × String)
      → Result PlanError (Unit {0})
  unfolding check_dependencies check_inputs
  validate_flow plan (step_by_key, output_producer) =
      for_each (check_dependencies step_by_key) plan.steps
      >> (assert_acyclic set_order step_by_key >>= λ ancestors.
          for_each (check_inputs plan.initial_input_contracts output_producer ancestors) plan.steps)

  unfoldable pub validate_graph_and_contract_flow :
      TaskExecutionPlanSpec → Result PlanError (Unit {0})
  unfolding validate_flow collect collect_outputs
  validate_graph_and_contract_flow plan = collect plan.steps [] [] >>= validate_flow plan
