-- ===== src/Plans/Children.antt =====
-- The keys that `children` (src/mutiai/domain/task_plan.py) lists.
use muti_ai.Prelude.{String, ◌≡◌, true, some, List, [], ◌∷◌, arith, string_eq, elem, is_some}
use muti_ai.Feasibility.{all_unique}
use muti_ai.Keys.{found-elem, fits, elem-filter, unique-filter}
use muti_ai.Plans.Spec.{PlanStepSpec, step_of, step_keys}
use muti_ai.Plans.Graph.{children}

pub step_of-elem :
    (k : String) (steps : List PlanStepSpec) → is_some (step_of k steps) ≡ elem k (step_keys steps)
step_of-elem k steps = found-elem (λ s. s.step_key) k steps

pub step_of-step_key :
    (k : String) (steps : List PlanStepSpec) (s : PlanStepSpec)
    → step_of k steps ≡ some s
    → s.step_key ≡ k
step_of-step_key k [] s h = cc
step_of-step_key k (x ∷ steps) s h = ground (arith, step_of-step_key k steps s)

-- The keys of the steps that name `key` among their dependencies, each once.
pub elem-children :
    (steps : List PlanStepSpec) (key k : String)
    → all_unique (step_keys steps) ≡ true
    → elem k (children steps key)
      ≡ fits (λ s. s.step_key) (λ s. elem key s.depends_on) (step_of k steps)
unfolding children
elem-children steps key k u = elem-filter (λ s. s.step_key) k (λ s. elem key s.depends_on) steps u

pub unique-children :
    (steps : List PlanStepSpec) (key : String)
    → all_unique (step_keys steps) ≡ true
    → all_unique (children steps key) ≡ true
unfolding children
unique-children steps key u = unique-filter (λ s. s.step_key) (λ s. elem key s.depends_on) steps u
