-- ===== src/Plans/Roundtrip.antt =====
-- A plan is stored by `create_task_execution_plan` (src/mutiai/services/task_plans.py) as it is.
use muti_ai.Prelude.{
  ℕ, suc, String, ◌≡◌, ◌∙◌, sym, ap, refl, true, false, some, List, [], ◌∷◌, ◌++◌, arith, leb, ◌==◌,
  string_eq, elem, filter, map, All, append-snoc, append-nil, Bool-cases, inl, inr, ok,
}
use muti_ai.Models.Plan.{PlanStep, PlanStepDependency}
use muti_ai.Database.{Session, Draws, later}
use muti_ai.Scheduler.Rows.{step_row, insert_step, by_sequence, steps_of}
use muti_ai.Plans.Identity.{Identities, deterministic_plan_step_id}
use muti_ai.Plans.Spec.{PlanStepSpec, step_keys}
use muti_ai.Plans.Create.{new_step, new_steps, new_dependency, add_dependencies}
use muti_ai.Plans.Stored.{dependency_keys, spec_of, filter-none_fits, targets}

module _ (ids : Identities) (plan_id : String) where
  unfoldable pub new_dependencies : Draws → List (String × String) → List PlanStepDependency
  unfolding new_dependency
  new_dependencies draws [] = []
  new_dependencies draws (e ∷ es) =
      new_dependency ids draws plan_id e ∷ new_dependencies (later 1 draws) es

  pub add_dependencies-ok :
      (draws : Draws) (keys : List String) (es : List (String × String)) (s : Session)
      → All (λ e. elem e.1 keys ≡ true) es
      → add_dependencies ids draws plan_id keys es s
        ≡ (ok tt, record s { dependencies = s.dependencies ++ new_dependencies draws es })
  unfolding add_dependencies new_dependencies
  add_dependencies-ok draws keys [] s h =
      ap (λ ds. (ok tt, record s { dependencies = ds })) (sym (append-nil s.dependencies))
  add_dependencies-ok draws keys (e ∷ es) s h =
      let d = new_dependency ids draws plan_id e in
      rw h.0 (
        add_dependencies-ok (later 1 draws) keys es
          (record s { dependencies = s.dependencies ++ d ∷ [] }) h.1
        ∙ ap (λ ds. (ok tt, record s { dependencies = ds }))
            (append-snoc s.dependencies d (new_dependencies (later 1 draws) es)))

  insert_step-first :
      (x : PlanStep) (draws : Draws) (n : ℕ) (specs : List PlanStepSpec)
      → x.sequence ≡ n
      → insert_step x (new_steps ids draws plan_id (suc n) specs)
        ≡ x ∷ new_steps ids draws plan_id (suc n) specs
  unfolding insert_step new_steps
  insert_step-first x draws n [] h = refl
  insert_step-first x draws n (y ∷ specs) h =
      let le : leb x.sequence (suc n) ≡ true = ground arith in rw le refl

  by_sequence-new_steps :
      (draws : Draws) (n : ℕ) (specs : List PlanStepSpec)
      → by_sequence (new_steps ids draws plan_id n specs) ≡ new_steps ids draws plan_id n specs
  unfolding by_sequence new_steps
  by_sequence-new_steps draws n [] = refl
  by_sequence-new_steps draws n (x ∷ specs) =
      ap (insert_step (new_step ids draws plan_id n x))
        (by_sequence-new_steps (later 2 draws) (suc n) specs)
      ∙ insert_step-first (new_step ids draws plan_id n x) (later 2 draws) n specs refl

  filter-new_steps :
      (draws : Draws) (n : ℕ) (specs : List PlanStepSpec)
      → filter (λ x. x.plan_id == plan_id) (new_steps ids draws plan_id n specs)
        ≡ new_steps ids draws plan_id n specs
  unfolding new_steps
  filter-new_steps draws n [] = refl
  filter-new_steps draws n (x ∷ specs) =
      let same : (plan_id == plan_id) ≡ true = ground arith in
      rw same (
        ap (λ l. new_step ids draws plan_id n x ∷ l)
          (filter-new_steps (later 2 draws) (suc n) specs))

  -- In a table without rows of the plan, its steps are those that are added, in their order.
  pub steps_of-append :
      (draws : Draws) (specs : List PlanStepSpec) (rows : List PlanStep)
      → All (λ x. (x.plan_id == plan_id) ≡ false) rows
      → steps_of plan_id (rows ++ new_steps ids draws plan_id 0 specs)
        ≡ new_steps ids draws plan_id 0 specs
  unfolding steps_of
  steps_of-append draws specs rows fresh =
      ap by_sequence (
        filter-none_fits (λ x. x.plan_id == plan_id) rows (new_steps ids draws plan_id 0 specs)
          fresh
        ∙ filter-new_steps draws 0 specs)
      ∙ by_sequence-new_steps draws 0 specs

-- The ids of steps with different ones of the keys are different.
abbrev pub TellsApart : Identities → (plan_id : String) (keys : List String) → Type 0
TellsApart ids plan_id keys =
    (a b : String)
    → elem a keys ≡ true
    → elem b keys ≡ true
    → deterministic_plan_step_id ids plan_id a ≡ deterministic_plan_step_id ids plan_id b
    → a ≡ b

module _ (ids : Identities) (plan_id : String) (keys : List String)
    (apart : TellsApart ids plan_id keys) where
  abbrev id_of : String → String
  id_of key = deterministic_plan_step_id ids plan_id key

  id_apart :
      (a b : String)
      → elem a keys ≡ true
      → elem b keys ≡ true
      → (a == b) ≡ false
      → (id_of a == id_of b) ≡ false
  id_apart a b ka kb h = ground (arith, apart a b ka kb)

  pub step_row-new_steps :
      (draws : Draws) (n : ℕ) (specs : List PlanStepSpec) (k : String)
      → All (λ x. elem x.step_key keys ≡ true) specs
      → elem k keys ≡ true
      → elem k (step_keys specs) ≡ true
      → (x : PlanStep) × (step_row (id_of k) (new_steps ids draws plan_id n specs) ≡ some x)
        × (x.step_key ≡ k)
  unfolding new_steps
  step_row-new_steps draws n [] k own here h = cc
  step_row-new_steps draws n (x ∷ specs) k own here h = elim (Bool-cases (x.step_key == k)) [
    | inl this ↦
        let same : x.step_key ≡ k = ground arith in
        let found : (id_of x.step_key == id_of k) ≡ true = ground arith in
        (new_step ids draws plan_id n x, rw found refl, same)
    | inr other ↦
        let (y, found, same) =
          step_row-new_steps (later 2 draws) (suc n) specs k own.1 here (ground arith) in
        (y, rw (id_apart x.step_key k own.0 here other) found, same)
  ]

  pub dependency_keys-new :
      (draws : Draws) (steps : List PlanStep) (es : List (String × String)) (k : String)
      → All (λ e. elem e.0 keys ≡ true) es
      → elem k keys ≡ true
      → All (λ e. (x : PlanStep) × (step_row (id_of e.1) steps ≡ some x) × (x.step_key ≡ e.1)) es
      → dependency_keys (id_of k) steps (new_dependencies ids plan_id draws es) ≡ targets k es
  unfolding dependency_keys new_dependencies targets
  dependency_keys-new draws steps [] k own here h = refl
  dependency_keys-new draws steps (e ∷ es) k own here h =
      let rest = dependency_keys-new (later 1 draws) steps es k own.1 here h.1 in
      let (x, found, named) = h.0 in
      elim (Bool-cases (e.0 == k)) [
        | inl this ↦
            let same : (id_of e.0 == id_of k) ≡ true = ground arith in
            rw (this, same, found, named, rest) refl
        | inr other ↦ rw (other, id_apart e.0 k own.0 here other) rest
      ]

  pub map-spec_of :
      (draws : Draws) (n : ℕ) (specs : List PlanStepSpec) (steps : List PlanStep)
      (ds : List PlanStepDependency)
      → All (λ x. dependency_keys (id_of x.step_key) steps ds ≡ x.depends_on) specs
      → map (spec_of steps ds) (new_steps ids draws plan_id n specs) ≡ specs
  unfolding new_steps
  map-spec_of draws n [] steps ds h = refl
  map-spec_of draws n (x ∷ specs) steps ds h =
      rw (h.0, map-spec_of (later 2 draws) (suc n) specs steps ds h.1) refl
