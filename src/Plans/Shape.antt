-- ===== src/Plans/Shape.antt =====
-- `validate_supported_plan_shape` (src/mutiai/services/task_plans.py).
use muti_ai.Prelude.{
  is_empty, ℕ, suc, String, Bool, true, false, not, ◌&&◌, ◌||◌, Option, none, some, List, [], ◌∷◌,
  ◌++◌, Result, ok, err, ◌>>◌, if◌then◌else◌, ◌==◌, ◌!=◌, string_eq, nat_eq, elem, any, all, find?,
  length, map,
}
use muti_ai.Organizations.{AgentRoleSpec, OrganizationSpec}
use muti_ai.Plans.Spec.{StepKind, step_kind_eq, PlanStepSpec, TaskExecutionPlanSpec, step_keys}

pub data ExecutionShape : Type 0 where
  linear parallel : ExecutionShape

-- The error codes of the service. `no_lead` is the `StopIteration` of `next`.
pub data ShapeError : Type 0 where
  supported_shape_required unknown_role role_reused lead_review_required : ShapeError
  lead_review_output_forbidden specialist_step_invalid : ShapeError
  parallel_output_required parallel_review_inputs_incomplete no_lead : ShapeError

-- `set(xs) == set(ys)`
abbrev pub same_set : List String → List String → Bool
same_set xs ys = all (λ x. elem x ys) xs && all (λ y. elem y xs) ys

-- `role_by_key`: where a key stands twice, the last role wins.
unfoldable pub last_role : String → List AgentRoleSpec → Option AgentRoleSpec
last_role key [] = none
last_role key (r ∷ roles) = elim (last_role key roles) [
  | some later_ ↦ some later_
  | none ↦ if r.role_key == key then some r else none
]

module _ (roles : List AgentRoleSpec) (lead : AgentRoleSpec) where
  -- The body of the first loop, on the last step or before it.
  unfoldable pub check_kind :
      (is_final : Bool) → PlanStepSpec → AgentRoleSpec → Result ShapeError (Unit {0})
  check_kind true step role =
      if step.step_kind != StepKind.lead_review || step.role_key != lead.role_key
      then err ShapeError.lead_review_required
      else if is_empty step.output_contracts
      then ok tt
      else err ShapeError.lead_review_output_forbidden
  check_kind false step role =
      if step.step_kind != StepKind.specialist || role.is_lead
      then err ShapeError.specialist_step_invalid
      else ok tt

  unfoldable pub check_step :
      (is_final : Bool) (used_roles : List String) → PlanStepSpec → Result ShapeError (Unit {0})
  unfolding last_role check_kind
  check_step is_final used_roles step = elim (last_role step.role_key roles) [
    | none ↦ err ShapeError.unknown_role
    | some role ↦
        if elem step.role_key used_roles
        then err ShapeError.role_reused
        else check_kind is_final step role
  ]

  unfoldable pub check_steps :
      (used_roles : List String) → List PlanStepSpec → Result ShapeError (Unit {0})
  check_steps used_roles [] = ok tt
  check_steps used_roles (step ∷ steps) =
      check_step (is_empty steps) used_roles step >> check_steps (step.role_key ∷ used_roles) steps

-- `plan_spec.steps[:-1]`, and the last step of a plan whose first is `step`.
unfoldable pub before_last : PlanStepSpec → List PlanStepSpec → List PlanStepSpec
before_last step [] = []
before_last step (next ∷ steps) = step ∷ before_last next steps

unfoldable pub last_step : PlanStepSpec → List PlanStepSpec → PlanStepSpec
last_step step [] = step
last_step step (next ∷ steps) = last_step next steps

-- Equality of tuples of texts.
abbrev pub same_list : List String → List String → Bool
same_list [] [] = true
same_list [] (_ ∷ _) = false
same_list (_ ∷ _) [] = false
same_list (x ∷ xs) (y ∷ ys) = x == y && same_list xs ys

-- `all(step.depends_on == (…) for …)`, where `expected` is what the next step has to depend on.
unfoldable pub is_linear : (expected : List String) → List PlanStepSpec → Bool
is_linear expected [] = true
is_linear expected (step ∷ steps) =
    same_list step.depends_on expected && is_linear (step.step_key ∷ []) steps

-- `len(set(xs))`
unfoldable pub set_size : List String → ℕ
set_size [] = 0
set_size (x ∷ xs) = let rest = set_size xs in if elem x xs then rest else suc rest

unfoldable pub is_parallel : List PlanStepSpec → PlanStepSpec → Bool
unfolding set_size
is_parallel specialists review =
    all (λ s. is_empty s.depends_on) specialists
    && (same_set review.depends_on (step_keys specialists)
        && length review.depends_on == set_size (step_keys specialists))

unfoldable pub output_keys : List PlanStepSpec → List String
output_keys [] = []
output_keys (s ∷ steps) = map (λ c. c.contract_key) s.output_contracts ++ output_keys steps

unfoldable pub shape_of :
    List PlanStepSpec → List PlanStepSpec → PlanStepSpec → Result ShapeError ExecutionShape
unfolding is_linear is_parallel output_keys
shape_of steps specialists review =
    if is_linear [] steps
    then ok ExecutionShape.linear
    else if not (is_parallel specialists review)
    then err ShapeError.supported_shape_required
    else if any (λ s. is_empty s.output_contracts) specialists
    then err ShapeError.parallel_output_required
    else if same_set review.input_contracts (output_keys specialists)
    then ok ExecutionShape.parallel
    else err ShapeError.parallel_review_inputs_incomplete

unfoldable pub shape_under :
    List AgentRoleSpec → AgentRoleSpec → List PlanStepSpec → Result ShapeError ExecutionShape
unfolding check_steps before_last last_step shape_of
shape_under roles lead [] = err ShapeError.supported_shape_required
shape_under roles lead (_ ∷ []) = err ShapeError.supported_shape_required
shape_under roles lead (first ∷ second ∷ rest) =
    check_steps roles lead [] (first ∷ second ∷ rest)
    >> shape_of (first ∷ second ∷ rest) (before_last first (second ∷ rest))
        (last_step first (second ∷ rest))

unfoldable pub validate_supported_plan_shape :
    TaskExecutionPlanSpec → OrganizationSpec → Result ShapeError ExecutionShape
unfolding shape_under
validate_supported_plan_shape plan organization = elim (find? (λ r. r.is_lead) organization.roles) [
  | none ↦ err ShapeError.no_lead
  | some lead ↦ shape_under organization.roles lead plan.steps
]
