-- ===== src/Plans/Review.antt =====
-- In a plan of a supported shape (src/mutiai/services/task_plans.py) the lead's review comes last.
use muti_ai.Prelude.{
  is_empty, String, ◌≡◌, refl, Bool, true, false, not, some, List, [], ◌∷◌, arith, ok, then-ok,
  string_eq, elem, all, find?, All, Bool-cases, Option-cases, inl, inr, All-map, nat_eq,
}
use muti_ai.Feasibility.{all_unique}
use muti_ai.Keys.{unique-Found}
use muti_ai.Organizations.{AgentRoleSpec, OrganizationSpec}
use muti_ai.Plans.Spec.{
  StepKind, step_kind_eq, PlanStepSpec, TaskExecutionPlanSpec, step_of, step_keys,
}
use muti_ai.Plans.Flow.{Ancestor}
use muti_ai.Plans.Shape.{
  ExecutionShape, same_list, before_last, last_step, is_linear, is_parallel, shape_of, shape_under,
  check_kind, check_step, check_steps, validate_supported_plan_shape,
}

Ancestor-trans :
    {steps : List PlanStepSpec} {a p j : String}
    → Ancestor steps a p
    → Ancestor steps p j
    → Ancestor steps a j
Ancestor-trans up (Ancestor.direct j s found dep) = Ancestor.further _ j s found dep up
Ancestor-trans up (Ancestor.further q j s found dep rest) =
    Ancestor.further q j s found dep (Ancestor-trans up rest)

abbrev Stored : List PlanStepSpec → PlanStepSpec → Type 0
Stored steps s = step_of s.step_key steps ≡ some s

-- Every step but the last is an ancestor of the last one.
abbrev pub ReviewLast : List PlanStepSpec → PlanStepSpec → List PlanStepSpec → Type 0
ReviewLast steps first rest =
    All (λ s. Ancestor steps s.step_key (last_step first rest).step_key) (before_last first rest)

same_list-elem : (k : String) (xs : List String) → same_list xs (k ∷ []) ≡ true → elem k xs ≡ true
same_list-elem k [] h = cc
same_list-elem k (x ∷ xs) h = ground arith

linear-ReviewLast :
    (steps : List PlanStepSpec) (first : PlanStepSpec) (rest : List PlanStepSpec)
    → is_linear (first.step_key ∷ []) rest ≡ true
    → All (Stored steps) rest
    → ReviewLast steps first rest
unfolding is_linear before_last last_step
linear-ReviewLast steps first [] line stored = tt
linear-ReviewLast steps first (next ∷ []) line stored = (
  Ancestor.direct next.step_key next stored.0
      (same_list-elem first.step_key next.depends_on (ground arith)),
  tt,
)
linear-ReviewLast steps first (next ∷ third ∷ rest) line stored =
    let later_ = linear-ReviewLast steps next (third ∷ rest) (ground arith) stored.1 in
    let this = same_list-elem first.step_key next.depends_on (ground arith) in
    (Ancestor-trans (Ancestor.direct next.step_key next stored.0 this) later_.0, later_)

last-Stored :
    (steps : List PlanStepSpec) (first : PlanStepSpec) (rest : List PlanStepSpec)
    → All (Stored steps) (first ∷ rest)
    → Stored steps (last_step first rest)
unfolding last_step
last-Stored steps first [] h = h.0
last-Stored steps first (next ∷ rest) h = last-Stored steps next rest h.1

all-All :
    (p : String → Bool) (xs : List PlanStepSpec)
    → all p (step_keys xs) ≡ true
    → All (λ s. p s.step_key ≡ true) xs
all-All p [] h = tt
all-All p (x ∷ xs) h = (ground arith, all-All p xs (ground arith))

parallel-ReviewLast :
    (steps : List PlanStepSpec) (first : PlanStepSpec) (rest : List PlanStepSpec)
    → is_parallel (before_last first rest) (last_step first rest) ≡ true
    → Stored steps (last_step first rest)
    → ReviewLast steps first rest
unfolding is_parallel
parallel-ReviewLast steps first rest h stored =
    let review = last_step first rest in
    All-map (λ s. elem s.step_key review.depends_on ≡ true)
      (λ s. Ancestor steps s.step_key review.step_key) (before_last first rest)
      (λ s inside. Ancestor.direct review.step_key review stored inside)
      (all-All (λ y. elem y review.depends_on) (before_last first rest) (ground arith))

shape_of-ReviewLast :
    (first : PlanStepSpec) (rest : List PlanStepSpec) (shape : ExecutionShape)
    → All (Stored (first ∷ rest)) (first ∷ rest)
    → shape_of (first ∷ rest) (before_last first rest) (last_step first rest) ≡ ok shape
    → ReviewLast (first ∷ rest) first rest
unfolding shape_of is_linear
shape_of-ReviewLast first rest shape stored h = elim (Bool-cases (is_linear [] (first ∷ rest))) [
  | inl line ↦ linear-ReviewLast (first ∷ rest) first rest (ground arith) stored.1
  | inr other ↦
      parallel-ReviewLast (first ∷ rest) first rest (ground arith)
        (last-Stored (first ∷ rest) first rest stored)
]

-- The last step is the lead's review.
check_steps-lead_review :
    (roles : List AgentRoleSpec) (lead : AgentRoleSpec) (used : List String) (first : PlanStepSpec)
    (rest : List PlanStepSpec)
    → check_steps roles lead used (first ∷ rest) ≡ ok tt
    → (last_step first rest).step_kind ≡ StepKind.lead_review
unfolding check_steps check_step check_kind last_step
check_steps-lead_review roles lead used first [] h = ground arith
check_steps-lead_review roles lead used first (next ∷ rest) h =
    check_steps-lead_review roles lead (first.role_key ∷ used) next rest
      (then-ok (check_step roles lead false used first) _ tt h).1

shape_under-ReviewLast :
    (roles : List AgentRoleSpec) (lead : AgentRoleSpec) (steps : List PlanStepSpec)
    (shape : ExecutionShape)
    → all_unique (step_keys steps) ≡ true
    → shape_under roles lead steps ≡ ok shape
    → (first : PlanStepSpec) × (rest : List PlanStepSpec) × (steps ≡ first ∷ rest)
      × (not (is_empty rest) ≡ true)
      × ((last_step first rest).step_kind ≡ StepKind.lead_review)
      × ReviewLast steps first rest
unfolding shape_under
shape_under-ReviewLast roles lead [] shape distinct h = cc
shape_under-ReviewLast roles lead (_ ∷ []) shape distinct h = cc
shape_under-ReviewLast roles lead (first ∷ second ∷ rest) shape distinct h =
    let (checked, shaped) = then-ok (check_steps roles lead [] (first ∷ second ∷ rest)) _ shape h in
    (
      first,
      second ∷ rest,
      refl,
      refl,
      check_steps-lead_review roles lead [] first (second ∷ rest) checked,
      shape_of-ReviewLast first (second ∷ rest) shape
          (unique-Found (λ s. s.step_key) (first ∷ second ∷ rest) distinct) shaped,
    )

-- A plan with distinct step keys whose shape the service supports, linear or parallel, has at
-- least two steps, the last one is a lead review, and every step before it is one of its
-- ancestors.
pub validate_supported_plan_shape-ReviewLast :
    (plan : TaskExecutionPlanSpec) (organization : OrganizationSpec) (shape : ExecutionShape)
    → all_unique (step_keys plan.steps) ≡ true
    → validate_supported_plan_shape plan organization ≡ ok shape
    → (first : PlanStepSpec) × (rest : List PlanStepSpec) × (plan.steps ≡ first ∷ rest)
      × (not (is_empty rest) ≡ true)
      × ((last_step first rest).step_kind ≡ StepKind.lead_review)
      × ReviewLast plan.steps first rest
unfolding validate_supported_plan_shape
validate_supported_plan_shape-ReviewLast plan organization shape distinct h =
    elim (Option-cases (find? (λ r. r.is_lead) organization.roles)) [
      | inr absent ↦ absurd (ground arith)
      | inl (lead, found) ↦
          shape_under-ReviewLast organization.roles lead plan.steps shape distinct (ground arith)
    ]
