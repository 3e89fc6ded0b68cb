-- ===== src/Plans/Ancestors.antt =====
-- The second half of `_assert_acyclic` (src/mutiai/domain/task_plan.py): the verdict, and the set of
-- ancestors of each step. A set is a list that is read by membership.
use muti_ai.Prelude.{
  String, none, some, List, [], ◌∷◌, ◌++◌, Result, ok, err, if◌then◌else◌, ◌==◌, ◌!=◌, string_eq,
  nat_eq, length,
}
use muti_ai.Plans.Spec.{PlanStepSpec, PlanError}
use muti_ai.Plans.Graph.{children, order}

-- `ancestors[child].add(key)`, then `ancestors[child].update(ancestors[key])`
unfoldable pub extend : (key child : String) → (String → List String) → String → List String
extend key child ancestors j =
    if child == j then (ancestors j ++ key ∷ []) ++ ancestors key else ancestors j

unfoldable pub spread : (key : String) → List String → (String → List String) → String → List String
unfolding extend
spread key [] ancestors = ancestors
spread key (child ∷ rest) ancestors = spread key rest (extend key child ancestors)

module _ (set_order : List String → List String) (steps : List PlanStepSpec) where
  unfoldable pub ancestors_from : List String → (String → List String) → String → List String
  unfolding spread
  ancestors_from [] ancestors = ancestors
  ancestors_from (key ∷ ordered) ancestors =
      ancestors_from ordered (spread key (set_order (children steps key)) ancestors)

  unfoldable pub assert_acyclic : Result PlanError (String → List String)
  unfolding ancestors_from
  assert_acyclic = elim (order set_order steps) [
    | none ↦ err PlanError.out_of_fuel
    | some ordered ↦
        if length ordered != length steps
        then err PlanError.dependency_cycle
        else ok (ancestors_from ordered (λ _. []))
  ]
