-- ===== src/Plans/Flow.antt =====
-- The ancestors that `_assert_acyclic` (src/mutiai/domain/task_plan.py) collects are ancestors.
use muti_ai.Prelude.{
  String, ◌≡◌, inl, inr, refl, true, ◌||◌, some, List, [], ◌∷◌, ◌++◌, arith, ok, ◌==◌, string_eq,
  nat_eq, elem, Bool-cases, Option-cases, subst, sym, ap, ◌∙◌,
}
use muti_ai.Keys.{fits}
use muti_ai.Plans.Spec.{PlanStepSpec, step_of}
use muti_ai.Plans.Graph.{children, order}
use muti_ai.Plans.Ancestors.{extend, spread, ancestors_from, assert_acyclic}
use muti_ai.Plans.Kahn.{IsSetOrder, IsClean}
use muti_ai.Plans.Children.{elem-children}

-- `a` is a dependency of the step `j`, or of one of its dependencies, and so on.
pub data Ancestor (steps : List PlanStepSpec) (a : String) : String → Type 0 where
  direct :
      (j : String) (s : PlanStepSpec)
      → step_of j steps ≡ some s
      → elem a s.depends_on ≡ true
      → Ancestor steps a j
  further :
      (p j : String) (s : PlanStepSpec)
      → step_of j steps ≡ some s
      → elem p s.depends_on ≡ true
      → Ancestor steps a p
      → Ancestor steps a j

elem-append : (k : String) (xs ys : List String) → elem k (xs ++ ys) ≡ (elem k xs || elem k ys)
elem-append k [] ys = refl
elem-append k (x ∷ xs) ys = ground (arith, elem-append k xs ys)

module _ (set_order : List String → List String) (arranged : IsSetOrder set_order)
    (steps : List PlanStepSpec) (clean : IsClean steps) where
  -- Every collected key is an ancestor.
  abbrev pub Collected : (String → List String) → Type 0
  Collected anc = (a j : String) → elem a (anc j) ≡ true → Ancestor steps a j

  extend-Collected :
      (key child : String) (s : PlanStepSpec) (anc : String → List String)
      → step_of child steps ≡ some s
      → elem key s.depends_on ≡ true
      → Collected anc
      → Collected (extend key child anc)
  unfolding extend
  extend-Collected key child s anc found dep h a j inside = elim (Bool-cases (child == j)) [
    | inr other ↦ h a j (rw other at inside)
    | inl same ↦
        let this : child ≡ j = ground arith in
        let found' = subst (λ x. step_of x steps ≡ some s) this found in
        let parts : ((elem a (anc j) || key == a) || elem a (anc key)) ≡ true =
          ground (
            arith,
            elem-append a (anc j ++ key ∷ []) (anc key),
            elem-append a (anc j) (key ∷ []),
          ) in
        elim (Bool-cases (elem a (anc key))) [
          | inl beyond ↦ Ancestor.further key j s found' dep (h a key beyond)
          | inr here_ ↦ elim (Bool-cases (key == a)) [
            | inl new_ ↦
                Ancestor.direct j s found'
                  (let e : key ≡ a = ground arith in subst (λ x. elem x s.depends_on ≡ true) e dep)
            | inr old ↦ h a j (ground arith)
          ]
        ]
  ]

  spread-Collected :
      (key : String) (cs : List String) (anc : String → List String)
      → ((c : String)
          → elem c cs ≡ true
          → (s : PlanStepSpec) × (step_of c steps ≡ some s) × (elem key s.depends_on ≡ true))
      → Collected anc
      → Collected (spread key cs anc)
  unfolding spread
  spread-Collected key [] anc kids h = h
  spread-Collected key (c ∷ cs) anc kids h =
      let (s, found, dep) = kids c (ground arith) in
      spread-Collected key cs (extend key c anc) (λ x inside. kids x (ground arith))
        (extend-Collected key c s anc found dep h)

  child_of :
      (key c : String)
      → elem c (set_order (children steps key)) ≡ true
      → (s : PlanStepSpec) × (step_of c steps ≡ some s) × (elem key s.depends_on ≡ true)
  child_of key c inside =
      let listed : fits (λ s. s.step_key) (λ x. elem key x.depends_on) (step_of c steps) ≡ true =
        sym (elem-children steps key c clean.keys)
        ∙ sym (arranged.same c (children steps key))
        ∙ inside in
      elim (Option-cases (step_of c steps)) [
        | inl (s, found) ↦ (
          s,
          found,
          sym (ap (fits (λ s. s.step_key) (λ x. elem key x.depends_on)) found) ∙ listed,
        )
        | inr absent ↦ absurd (ground arith)
      ]

  ancestors_from-Collected :
      (o : List String) (anc : String → List String)
      → Collected anc
      → Collected (ancestors_from set_order steps o anc)
  unfolding ancestors_from
  ancestors_from-Collected [] anc h = h
  ancestors_from-Collected (key ∷ o) anc h =
      ancestors_from-Collected o (spread key (set_order (children steps key)) anc)
        (spread-Collected key (set_order (children steps key)) anc (child_of key) h)

  pub assert_acyclic-Collected :
      (anc : String → List String) → assert_acyclic set_order steps ≡ ok anc → Collected anc
  unfolding assert_acyclic
  assert_acyclic-Collected anc h = elim (Option-cases (order set_order steps)) [
    | inr stuck ↦ absurd (ground arith)
    | inl (o, drained) ↦
        let e : ancestors_from set_order steps o (λ _. []) ≡ anc = ground arith in
        subst Collected e
          (ancestors_from-Collected o (λ _. []) (λ a j inside. absurd (ground arith)))
  ]
