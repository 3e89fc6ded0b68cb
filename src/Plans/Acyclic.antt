-- ===== src/Plans/Acyclic.antt =====
-- The verdict of `_assert_acyclic` (src/mutiai/domain/task_plan.py) against the graph itself.
use muti_ai.Prelude.{
  ℕ, zero, suc, ◌<◌, String, ◌≡◌, ◌≢◌, ◌↔◌, refl, ap, Bool, true, false, ◌&&◌, some, List, [], ◌∷◌,
  arith, ok, err, is_some, ◌==◌, ◌!=◌, string_eq, nat_eq, filter, elem, length, All, All-map,
  All-both, All-of_elem, elem-All, Bool-cases, Option-cases, inl, inr,
}
use muti_ai.Feasibility.{all_unique}
use muti_ai.Plans.Spec.{PlanStepSpec, PlanError, step_of, step_keys}
use muti_ai.Plans.Graph.{indegree, roots, order}
use muti_ai.Plans.Ancestors.{assert_acyclic, ancestors_from}
use muti_ai.Plans.Children.{step_of-elem}
use muti_ai.Plans.Rank.{missing-nil, missing-zero, zero-missing, rank}
use muti_ai.Plans.Kahn.{IsSetOrder, IsClean, IsFrontier, drain-IsFrontier}

-- The steps can be numbered so that each stands after all that it depends on.
abbrev pub IsAcyclic : List PlanStepSpec → Type 0
IsAcyclic steps =
    (place : String → ℕ) × ((k : String) (s : PlanStepSpec)
      → step_of k steps ≡ some s
      → All (λ x. place x < place k) s.depends_on)

-- Every dependency is a step.
abbrev pub IsClosed : List PlanStepSpec → Type 0
IsClosed steps =
    (k : String) (s : PlanStepSpec)
    → step_of k steps ≡ some s
    → All (λ x. is_some (step_of x steps) ≡ true) s.depends_on

elem-filter_keys :
    (p : String → Bool) (xs : List String) (k : String) → elem k (filter p xs) ≡ (elem k xs && p k)
elem-filter_keys p [] k = refl
elem-filter_keys p (x ∷ xs) k = ground (arith, elem-filter_keys p xs k)

unique-filter_keys :
    (p : String → Bool) (xs : List String) → all_unique xs ≡ true → all_unique (filter p xs) ≡ true
unfolding all_unique
unique-filter_keys p [] u = refl
unique-filter_keys p (x ∷ xs) u = ground (arith, unique-filter_keys p xs, elem-filter_keys p xs x)

length-step_keys : (steps : List PlanStepSpec) → length (step_keys steps) ≡ length steps
length-step_keys [] = refl
length-step_keys (s ∷ steps) = ap suc (length-step_keys steps)

module _ (set_order : List String → List String) (arranged : IsSetOrder set_order)
    (steps : List PlanStepSpec) (clean : IsClean steps) where
  start-IsFrontier : IsFrontier steps (indegree steps) (roots steps) []
  unfolding roots indegree
  start-IsFrontier = record {
    counts = λ k s h. ground (arith, missing-nil s.depends_on);
    seen = λ k s h. ground (
      arith,
      elem-filter_keys (λ key. indegree steps key == 0) (step_keys steps) k,
      step_of-elem k steps,
    );
    apart = λ k h. refl;
    once = unique-filter_keys (λ key. indegree steps key == 0) (step_keys steps) clean.keys;
    known = λ k h.
        ground (arith, elem-filter_keys (λ key. indegree steps key == 0) (step_keys steps) k);
    size = omega (arith, missing-nil (step_keys steps));
    placed = λ k s h inside. absurd (ground arith);
  }

  order-IsFrontier :
      (o : List String) × (order set_order steps ≡ some o)
      × (d : String → ℕ) × IsFrontier steps d [] o
  unfolding order
  order-IsFrontier =
      drain-IsFrontier set_order arranged steps clean (suc (length steps)) (indegree steps)
        (roots steps) [] start-IsFrontier
        (omega (arith, missing-nil (step_keys steps), length-step_keys steps))

  -- If all steps are ordered, the order numbers them.
  full-IsAcyclic :
      (d : String → ℕ) (o : List String)
      → IsFrontier steps d [] o
      → length o ≡ length steps
      → IsAcyclic steps
  full-IsAcyclic d o f full =
      let all_in =
        missing-zero o (step_keys steps) (omega (arith, f.size, length-step_keys steps)) in
      (
        rank o,
        λ k s h.
            All-map (λ x. (elem x o ≡ true) × (rank o x < rank o k)) (λ x. rank o x < rank o k)
              s.depends_on (λ x both. both.1)
              (f.placed k s h (
                elem-All (λ x. elem x o ≡ true) (step_keys steps) k all_in
                  (ground (arith, step_of-elem k steps)))),
      )

  -- In a closed graph that can be numbered, the loop orders all steps.
  acyclic-full :
      (d : String → ℕ) (o : List String)
      → IsFrontier steps d [] o
      → IsClosed steps
      → IsAcyclic steps
      → length o ≡ length steps
  acyclic-full d o f closed (place, below) = omega (
    arith,
    f.size,
    zero-missing o (step_keys steps) (
        All-of_elem (λ x. elem x o ≡ true) (step_keys steps)
          (λ k h. ordered (suc (place k)) k (found k h) (omega arith))),
    length-step_keys steps,
  )
    where
      found :
          (k : String)
          → elem k (step_keys steps) ≡ true
          → (s : PlanStepSpec) × (step_of k steps ≡ some s)
      found k h = elim (Option-cases (step_of k steps)) [
        | inl there ↦ there
        | inr absent ↦ absurd (ground (arith, step_of-elem k steps))
      ]

      known :
          (k : String)
          → is_some (step_of k steps) ≡ true
          → (s : PlanStepSpec) × (step_of k steps ≡ some s)
      known k h = found k (ground (arith, step_of-elem k steps))

      ordered :
          (n : ℕ) (k : String)
          → ((s : PlanStepSpec) × (step_of k steps ≡ some s))
          → place k < n
          → elem k o ≡ true
      ordered zero k (s, h) lt = absurd (omega arith)
      ordered (suc n) k (s, h) lt =
          let deps =
            All-map (λ x. (place x < place k) × (is_some (step_of x steps) ≡ true))
              (λ x. elem x o ≡ true) s.depends_on
              (λ x both. ordered n x (known x both.1) (omega (arith, both.0, lt)))
              (All-both (λ x. place x < place k) (λ x. is_some (step_of x steps) ≡ true)
                s.depends_on (below k s h) (closed k s h)) in
          ground (arith, f.counts k s h, f.seen k s h, zero-missing o s.depends_on deps)

  -- For steps with distinct keys whose dependencies are steps, each named once, the check passes
  -- exactly if the steps can be numbered so that every dependency has a smaller number, that is,
  -- if there is no cycle.
  pub assert_acyclic-IsAcyclic :
      IsClosed steps
      → ((a : String → List String) × (assert_acyclic set_order steps ≡ ok a)) ↔ IsAcyclic steps
  unfolding assert_acyclic
  assert_acyclic-IsAcyclic closed =
      let (o, drained, d, f) = order-IsFrontier in
      (
        λ h. full-IsAcyclic d o f (accepted o drained h.0 h.1),
        λ acyclic.
            let full = acyclic-full d o f closed acyclic in
            let same : (length o != length steps) ≡ false = ground arith in
            (
              ancestors_from set_order steps o (λ _. []),
              rw (drained, assert_acyclic) (rw same refl),
            ),
      )
    where
      accepted :
          (o : List String)
          → order set_order steps ≡ some o
          → (a : String → List String) → assert_acyclic set_order steps ≡ ok a
          → length o ≡ length steps
      accepted o drained a h = ground arith

  -- For steps with distinct keys and no dependency named twice by a step, the loop over the queue
  -- always ends: the fuel of the model is enough.
  pub assert_acyclic-ne-out_of_fuel : assert_acyclic set_order steps ≢ err PlanError.out_of_fuel
  unfolding assert_acyclic
  assert_acyclic-ne-out_of_fuel =
      let (o, drained, d, f) = order-IsFrontier in
      rw (drained, assert_acyclic)
        (elim (Bool-cases (length o != length steps)) [
          | inl differ ↦ rw differ (λ h. cc)
          | inr same ↦ rw same (λ h. cc)
        ])
