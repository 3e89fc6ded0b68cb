-- ===== src/Plans/Sound.antt =====
-- What an accepted plan (`validate_graph_and_contract_flow`, src/mutiai/domain/task_plan.py) is.
use muti_ai.Prelude.{
  String, ◌≡◌, ◌⊎◌, inl, inr, refl, subst, true, some, List, [], arith, ok, bind-ok, then-ok,
  for_each, for_each-All, ◌==◌, string_eq, elem, All, All-map, All-find?, Bool-cases, Option-cases,
  is_some,
}
use muti_ai.Feasibility.{all_unique}
use muti_ai.Plans.Spec.{PlanStepSpec, TaskExecutionPlanSpec, step_of, step_keys}
use muti_ai.Plans.Ancestors.{assert_acyclic}
use muti_ai.Plans.Validate.{
  producer_of, collect, check_dependency, check_dependencies, check_input, check_inputs,
  validate_flow, validate_graph_and_contract_flow,
}
use muti_ai.Plans.Kahn.{IsSetOrder, IsClean}
use muti_ai.Plans.Acyclic.{IsAcyclic, assert_acyclic-IsAcyclic}
use muti_ai.Plans.Flow.{Ancestor, assert_acyclic-Collected}
use muti_ai.Plans.Collect.{has_output, IsCollected, collect-IsCollected}

-- An input is one of the Task's, or the output of a step that comes before.
abbrev pub IsFed : TaskExecutionPlanSpec → PlanStepSpec → String → Type 0
IsFed plan step key =
    (elem key plan.initial_input_contracts ≡ true)
    ⊎ ((p : String) × (s : PlanStepSpec) × (step_of p plan.steps ≡ some s)
        × (has_output key s.output_contracts ≡ true)
        × Ancestor plan.steps p step.step_key)

pub record IsSound (plan : TaskExecutionPlanSpec) : Type 0 where
  pub keys : all_unique (step_keys plan.steps) ≡ true
  pub deps : All (λ s. all_unique s.depends_on ≡ true) plan.steps
  pub closed : All (λ s. All (λ x. is_some (step_of x plan.steps) ≡ true) s.depends_on) plan.steps
  pub acyclic : IsAcyclic plan.steps
  pub fed : All (λ s. All (IsFed plan s) s.input_contracts) plan.steps

IsClean-of_collect :
    (steps : List PlanStepSpec) (ps : List (String × String)) → IsCollected steps ps → IsClean steps
IsClean-of_collect steps ps g = record {
  keys = g.keys;
  deps = λ k s found.
      All-find? (λ x. all_unique x.depends_on ≡ true) (λ x. x.step_key == k) steps s g.deps found;
}

check_dependency-ok :
    (steps : List PlanStepSpec) (s : PlanStepSpec) (x : String)
    → check_dependency steps s x ≡ ok tt
    → is_some (step_of x steps) ≡ true
unfolding check_dependency
check_dependency-ok steps s x h = ground arith

closed_of :
    (steps : List PlanStepSpec)
    → for_each (check_dependencies steps) steps ≡ ok tt
    → All (λ s. All (λ x. is_some (step_of x steps) ≡ true) s.depends_on) steps
unfolding check_dependencies
closed_of steps h =
    All-map (λ s. for_each (check_dependency steps s) s.depends_on ≡ ok tt)
      (λ s. All (λ x. is_some (step_of x steps) ≡ true) s.depends_on) steps
      (λ s e.
        All-map (λ x. check_dependency steps s x ≡ ok tt) (λ x. is_some (step_of x steps) ≡ true)
          s.depends_on (λ x e'. check_dependency-ok steps s x e')
          ((for_each-All (check_dependency steps s) s.depends_on).0 e))
      ((for_each-All (λ s. for_each (check_dependency steps s) s.depends_on) steps).0 h)

module _ (set_order : List String → List String) (arranged : IsSetOrder set_order)
    (plan : TaskExecutionPlanSpec) (ps : List (String × String)) (g : IsCollected plan.steps ps)
    (anc : String → List String) (ran : assert_acyclic set_order plan.steps ≡ ok anc) where
  check_input-IsFed :
      (s : PlanStepSpec) (key : String)
      → check_input plan.initial_input_contracts ps anc s key ≡ ok tt
      → IsFed plan s key
  unfolding check_input
  check_input-IsFed s key h = elim (Bool-cases (elem key plan.initial_input_contracts)) [
    | inl given ↦ inl given
    | inr made ↦ elim (Option-cases (producer_of key ps)) [
      | inr nobody ↦ absurd (ground arith)
      | inl (p, found) ↦
          let (x, at_, out) = g.produced key p found in
          let before : elem p (anc s.step_key) ≡ true = ground arith in
          inr (
            p,
            x,
            at_,
            out,
            assert_acyclic-Collected set_order arranged plan.steps
                (IsClean-of_collect plan.steps ps g) anc ran p s.step_key before,
          )
    ]
  ]

  IsFed-All :
      for_each (check_inputs plan.initial_input_contracts ps anc) plan.steps ≡ ok tt
      → All (λ s. All (IsFed plan s) s.input_contracts) plan.steps
  unfolding check_inputs
  IsFed-All h =
      All-map
        (λ s.
          for_each (check_input plan.initial_input_contracts ps anc s) s.input_contracts ≡ ok tt)
        (λ s. All (IsFed plan s) s.input_contracts) plan.steps
        (λ s e.
          All-map (λ x. check_input plan.initial_input_contracts ps anc s x ≡ ok tt) (IsFed plan s)
            s.input_contracts (λ x e'. check_input-IsFed s x e')
            ((for_each-All (check_input plan.initial_input_contracts ps anc s) s.input_contracts).0
              e))
        ((for_each-All
            (λ s. for_each (check_input plan.initial_input_contracts ps anc s) s.input_contracts)
            plan.steps).0
          h)

module _ (set_order : List String → List String) (arranged : IsSetOrder set_order)
    (plan : TaskExecutionPlanSpec) where
  flow-IsSound :
      (ps : List (String × String))
      → IsCollected plan.steps ps
      → validate_flow set_order plan (plan.steps, ps) ≡ ok tt
      → IsSound plan
  unfolding validate_flow
  flow-IsSound ps g h =
      let (checked, rest) = then-ok (for_each (check_dependencies plan.steps) plan.steps) _ tt h in
      let (anc, ran, inputs) = bind-ok (assert_acyclic set_order plan.steps) _ tt rest in
      let closed = closed_of plan.steps checked in
      record {
        keys = g.keys;
        deps = g.deps;
        closed = closed;
        acyclic =
            (assert_acyclic-IsAcyclic set_order arranged plan.steps
                (IsClean-of_collect plan.steps ps g)
                (λ k s found.
                  All-find? (λ x. All (λ y. is_some (step_of y plan.steps) ≡ true) x.depends_on)
                    (λ x. x.step_key == k) plan.steps s closed found)).0
              (anc, ran);
        fed = IsFed-All set_order arranged plan ps g anc ran inputs;
      }

  -- In an accepted plan the step keys are distinct, every dependency is another step named once, the
  -- steps can be done one after the other, and every input is one of the Task's or the output of a step
  -- that comes before, whatever the order in which Python iterates its sets.
  pub validate_graph_and_contract_flow-IsSound :
      validate_graph_and_contract_flow set_order plan ≡ ok tt → IsSound plan
  unfolding validate_graph_and_contract_flow
  validate_graph_and_contract_flow-IsSound h =
      let (d, made, flow) =
        bind-ok (collect plan.steps [] []) (validate_flow set_order plan) tt h in
      let (g, same) = collect-IsCollected plan.steps [] [] d start made in
      flow-IsSound d.1 (subst (λ x. IsCollected x d.1) same g)
        (subst (λ x. validate_flow set_order plan (x, d.1) ≡ ok tt) same flow)
    where
      start : IsCollected [] []
      start = record {
        keys = unfold all_unique in refl;
        deps = tt;
        produced = λ k p h. unfold producer_of in absurd (ground arith);
      }
