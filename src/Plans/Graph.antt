-- ===== src/Plans/Graph.antt =====
-- `_assert_acyclic` (src/mutiai/domain/task_plan.py): the order of the steps, by Kahn's algorithm.
use muti_ai.Prelude.{
  ℕ, zero, suc, ◌-◌, String, Option, none, some, List, [], ◌∷◌, ◌++◌, if◌then◌else◌, ◌==◌,
  string_eq, nat_eq, filter, elem, length,
}
use muti_ai.Plans.Spec.{PlanStepSpec, step_of, step_keys}

-- `children[key]`: the keys of the steps that depend on `key`, as the loop adds them to the set.
unfoldable pub children : List PlanStepSpec → String → List String
children steps key = step_keys (filter (λ s. elem key s.depends_on) steps)

-- `indegree` before the loop: one for each dependency.
unfoldable pub indegree : List PlanStepSpec → String → ℕ
indegree steps key = elim (step_of key steps) [ none ↦ 0 | some s ↦ length s.depends_on ]

unfoldable pub roots : List PlanStepSpec → List String
unfolding indegree
roots steps = filter (λ key. indegree steps key == 0) (step_keys steps)

-- `indegree[child] -= 1`
abbrev pub decrement : String → (String → ℕ) → String → ℕ
decrement child degrees key = if child == key then degrees key - 1 else degrees key

-- `for child in children[key]`
unfoldable pub visit :
    List String → (degrees : String → ℕ) (queue : List String) → (String → ℕ) × List String
visit [] degrees queue = (degrees, queue)
visit (child ∷ rest) degrees queue =
    visit rest (decrement child degrees)
      (if decrement child degrees child == 0 then queue ++ child ∷ [] else queue)

-- Python iterates a set in an order of its own, `set_order`.
module _ (set_order : List String → List String) (steps : List PlanStepSpec) where
  -- `while queue`; `none` is a loop that ran out of fuel.
  unfoldable pub drain :
      (fuel : ℕ) (degrees : String → ℕ) (queue ordered : List String) → Option (List String)
  drain zero degrees queue ordered = none
  drain (suc fuel) degrees [] ordered = some ordered
  drain (suc fuel) degrees (key ∷ queue) ordered =
      drain fuel (visit (set_order (children steps key)) degrees queue).0
        (visit (set_order (children steps key)) degrees queue).1 (ordered ++ key ∷ [])

  unfoldable pub order : Option (List String)
  unfolding drain
  order = drain (suc (length steps)) (indegree steps) (roots steps) []
