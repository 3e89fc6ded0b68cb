-- ===== src/Plans/Collect.antt =====
-- What the first loop over the steps (src/mutiai/domain/task_plan.py) has made sure of.
use muti_ai.Prelude.{
  String, ◌≡◌, ◌⊎◌, inl, inr, refl, sym, ap, ◌∙◌, subst, Bool, true, false, none, some, List, [],
  ◌∷◌, ◌++◌, arith, ok, bind-ok, ◌==◌, string_eq, any, All, All-append_one, Bool-cases,
  Option-cases, is_some, append-snoc, append-nil, find?-append_left,
}
use muti_ai.Feasibility.{all_unique}
use muti_ai.Plans.Spec.{ArtifactContractSpec, PlanStepSpec, step_of, step_keys}
use muti_ai.Plans.Validate.{producer_of, collect_outputs, collect}
use muti_ai.Plans.Children.{step_of-elem}
use muti_ai.Plans.Visit.{unique-snoc}

abbrev pub has_output : String → List ArtifactContractSpec → Bool
has_output key contracts = any (λ c. c.contract_key == key) contracts

producer_of-snoc :
    (k : String) (ps : List (String × String)) (key step : String) (p : String)
    → producer_of k (ps ++ (key, step) ∷ []) ≡ some p
    → (producer_of k ps ≡ some p) ⊎ ((key ≡ k) × (step ≡ p))
unfolding producer_of
producer_of-snoc k [] key step p h = elim (Bool-cases (key == k)) [
  | inl same ↦ inr (ground arith, ground arith)
  | inr other ↦ absurd (ground arith)
]
producer_of-snoc k ((j, v) ∷ ps) key step p h = elim (Bool-cases (j == k)) [
  | inl same ↦ inl (ground arith)
  | inr other ↦ elim (producer_of-snoc k ps key step p (rw other at h)) [
    | inl before ↦ inl (rw other before)
    | inr now ↦ inr now
  ]
]

collect_outputs-ok :
    (step : String) (cs : List ArtifactContractSpec) (ps ps' : List (String × String))
    (k p : String)
    → collect_outputs step cs ps ≡ ok ps'
    → producer_of k ps' ≡ some p
    → (producer_of k ps ≡ some p) ⊎ ((step ≡ p) × (has_output k cs ≡ true))
unfolding collect_outputs
collect_outputs-ok step [] ps ps' k p h found =
    let same : ps ≡ ps' = cc in inl (subst (λ x. producer_of k x ≡ some p) (sym same) found)
collect_outputs-ok step (c ∷ cs) ps ps' k p h found =
    elim (Bool-cases (is_some (producer_of c.contract_key ps))) [
      | inl twice ↦ absurd (ground arith)
      | inr fresh ↦
          elim (collect_outputs-ok step cs (ps ++ (c.contract_key, step) ∷ []) ps' k p
            (rw fresh at h) found) [
              | inr later_ ↦ inr (later_.0, ground arith)
              | inl before ↦ elim (producer_of-snoc k ps c.contract_key step p before) [
                | inl old ↦ inl old
                | inr now ↦ inr (now.1, ground arith)
              ]
            ]
    ]

-- The steps and the producers that the loop has collected so far.
pub record IsCollected (steps : List PlanStepSpec) (ps : List (String × String)) : Type 0 where
  pub keys : all_unique (step_keys steps) ≡ true
  pub deps : All (λ s. all_unique s.depends_on ≡ true) steps
  pub produced :
      (k p : String)
      → producer_of k ps ≡ some p
      → (s : PlanStepSpec) × (step_of p steps ≡ some s) × (has_output k s.output_contracts ≡ true)

step_keys-snoc :
    (steps : List PlanStepSpec) (s : PlanStepSpec)
    → step_keys (steps ++ s ∷ []) ≡ step_keys steps ++ s.step_key ∷ []
step_keys-snoc [] s = refl
step_keys-snoc (x ∷ steps) s = ap (λ l. x.step_key ∷ l) (step_keys-snoc steps s)

step_of-last :
    (steps : List PlanStepSpec) (s : PlanStepSpec)
    → step_of s.step_key steps ≡ none
    → step_of s.step_key (steps ++ s ∷ []) ≡ some s
step_of-last [] s h = ground arith
step_of-last (x ∷ steps) s h = ground (arith, step_of-last steps s)

snoc-IsCollected :
    (steps : List PlanStepSpec) (s : PlanStepSpec) (ps ps' : List (String × String))
    → IsCollected steps ps
    → step_of s.step_key steps ≡ none
    → all_unique s.depends_on ≡ true
    → collect_outputs s.step_key s.output_contracts ps ≡ ok ps'
    → IsCollected (steps ++ s ∷ []) ps'
snoc-IsCollected steps s ps ps' g fresh u made = record {
  keys = ground (
    arith,
    g.keys,
    step_keys-snoc steps s,
    unique-snoc s.step_key (step_keys steps),
    step_of-elem s.step_key steps,
  );
  deps = All-append_one (λ x. all_unique x.depends_on ≡ true) s steps u g.deps;
  produced = λ k p h. elim (collect_outputs-ok s.step_key s.output_contracts ps ps' k p made h) [
    | inl before ↦
        let (x, found, out) = g.produced k p before in
        (x, find?-append_left (λ y. y.step_key == p) steps (s ∷ []) x found, out)
    | inr now ↦ (
      s,
      subst (λ y. step_of y (steps ++ s ∷ []) ≡ some s) now.0 (step_of-last steps s fresh),
      now.1,
    )
  ];
}

pub collect-IsCollected :
    (rest steps : List PlanStepSpec) (ps : List (String × String))
    (d : List PlanStepSpec × List (String × String))
    → IsCollected steps ps
    → collect rest steps ps ≡ ok d
    → IsCollected d.0 d.1 × (d.0 ≡ steps ++ rest)
unfolding collect
collect-IsCollected [] steps ps d g h =
    let same : (steps, ps) ≡ d = cc in
    (subst (λ x. IsCollected x.0 x.1) same g, sym (ap (λ x. x.0) same) ∙ sym (append-nil steps))
collect-IsCollected (s ∷ rest) steps ps d g h = elim (Option-cases (step_of s.step_key steps)) [
  | inl (x, twice) ↦ absurd (ground arith)
  | inr fresh ↦ elim (Bool-cases (all_unique s.depends_on)) [
    | inr twice ↦ absurd (ground arith)
    | inl u ↦
        let absent : is_some (step_of s.step_key steps) ≡ false = ground arith in
        let (ps', made, more) =
          bind-ok (collect_outputs s.step_key s.output_contracts ps)
            (collect rest (steps ++ s ∷ [])) d (rw u at (rw absent at h)) in
        let (g', same) =
          collect-IsCollected rest (steps ++ s ∷ []) ps' d
            (snoc-IsCollected steps s ps ps' g fresh u made) more in
        (g', same ∙ append-snoc steps s rest)
  ]
]
