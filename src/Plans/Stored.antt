-- ===== src/Plans/Stored.antt =====
-- The rows that `create_task_execution_plan` (src/mutiai/services/task_plans.py) writes.
use muti_ai.Prelude.{
  String, ◌≡◌, ◌∙◌, ap, refl, Bool, true, false, none, some, List, [], ◌∷◌, ◌++◌, arith,
  if◌then◌else◌, ◌==◌, string_eq, elem, filter, map, All, append-nil,
}
use muti_ai.Feasibility.{all_unique}
use muti_ai.Models.Plan.{PlanStep, PlanStepDependency}
use muti_ai.Database.{Session}
use muti_ai.Scheduler.Rows.{step_row, steps_of}
use muti_ai.Plans.Spec.{PlanStepSpec, step_keys}
use muti_ai.Plans.Create.{edges}

-- The keys of the dependencies of a stored step, with the steps of its plan.
unfoldable pub dependency_keys :
    (plan_step_id : String) → List PlanStep → List PlanStepDependency → List String
dependency_keys id steps [] = []
dependency_keys id steps (d ∷ ds) =
    let rest = dependency_keys id steps ds in
    if d.plan_step_id == id
    then elim (step_row d.depends_on_step_id steps) [ none ↦ rest | some x ↦ x.step_key ∷ rest ]
    else rest

-- The specification that a stored step keeps.
abbrev pub spec_of : List PlanStep → List PlanStepDependency → PlanStep → PlanStepSpec
spec_of steps ds x = record {
  step_key = x.step_key;
  role_key = x.role_key;
  step_kind = x.step_kind;
  objective = x.objective;
  acceptance_criteria = x.acceptance_criteria;
  depends_on = dependency_keys x.plan_step_id steps ds;
  input_contracts = x.input_contracts;
  output_contracts = x.output_contracts;
}

abbrev pub stored_steps : (plan_id : String) → Session → List PlanStepSpec
stored_steps plan_id s =
    map (spec_of (steps_of plan_id s.plan_steps) s.dependencies) (steps_of plan_id s.plan_steps)

pub filter-none_fits :
    (p : PlanStep → Bool) (old new : List PlanStep)
    → All (λ x. p x ≡ false) old
    → filter p (old ++ new) ≡ filter p new
filter-none_fits p [] new h = refl
filter-none_fits p (x ∷ old) new h = rw h.0 (filter-none_fits p old new h.1)

pub dependency_keys-append :
    (id : String) (steps : List PlanStep) (old new : List PlanStepDependency)
    → All (λ d. (d.plan_step_id == id) ≡ false) old
    → dependency_keys id steps (old ++ new) ≡ dependency_keys id steps new
unfolding dependency_keys
dependency_keys-append id steps [] new h = refl
dependency_keys-append id steps (d ∷ old) new h =
    rw h.0 (dependency_keys-append id steps old new h.1)

-- What the pairs of keys say of one step.
unfoldable pub targets : String → List (String × String) → List String
targets k [] = []
targets k (e ∷ es) = let rest = targets k es in if e.0 == k then e.1 ∷ rest else rest

targets-own :
    (k : String) (ds : List String) (es : List (String × String))
    → targets k (map (λ d. (k, d)) ds ++ es) ≡ ds ++ targets k es
unfolding targets
targets-own k [] es = refl
targets-own k (d ∷ ds) es =
    let same : (k == k) ≡ true = ground arith in rw same (ap (λ l. d ∷ l) (targets-own k ds es))

targets-other :
    (j k : String) (ds : List String) (es : List (String × String))
    → (j == k) ≡ false
    → targets k (map (λ d. (j, d)) ds ++ es) ≡ targets k es
unfolding targets
targets-other j k [] es h = refl
targets-other j k (d ∷ ds) es h = rw h (targets-other j k ds es h)

targets-absent :
    (k : String) (specs : List PlanStepSpec)
    → elem k (step_keys specs) ≡ false
    → targets k (edges specs) ≡ []
unfolding edges targets
targets-absent k [] h = refl
targets-absent k (x ∷ specs) h =
    targets-other x.step_key k x.depends_on (edges specs) (ground arith)
    ∙ targets-absent k specs (ground arith)

abbrev pub Own : List (String × String) → PlanStepSpec → Type 0
Own es x = targets x.step_key es ≡ x.depends_on

Own-skip :
    (x : PlanStepSpec) (es : List (String × String)) (xs : List PlanStepSpec)
    → elem x.step_key (step_keys xs) ≡ false
    → All (Own es) xs
    → All (Own (map (λ d. (x.step_key, d)) x.depends_on ++ es)) xs
Own-skip x es [] off h = tt
Own-skip x es (y ∷ ys) off h = (
  targets-other x.step_key y.step_key x.depends_on es (ground arith) ∙ h.0,
  Own-skip x es ys (ground arith) h.1,
)

pub targets-edges :
    (specs : List PlanStepSpec)
    → all_unique (step_keys specs) ≡ true
    → All (Own (edges specs)) specs
unfolding all_unique edges
targets-edges [] u = tt
targets-edges (x ∷ specs) u = (
  targets-own x.step_key x.depends_on (edges specs)
      ∙ ap (λ l. x.depends_on ++ l) (targets-absent x.step_key specs (ground arith))
      ∙ append-nil x.depends_on,
  Own-skip x (edges specs) specs (ground arith) (targets-edges specs (ground arith)),
)
