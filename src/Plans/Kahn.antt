-- ===== src/Plans/Kahn.antt =====
-- The invariant of the loop of `_assert_acyclic` (src/mutiai/domain/task_plan.py).
use muti_ai.Prelude.{
  ℕ, zero, suc, ◌+◌, ◌<◌, String, ◌≡◌, refl, sym, ap, ◌∙◌, subst, true, false, ◌||◌, some, List, [],
  ◌∷◌, ◌++◌, arith, ◌==◌, string_eq, nat_eq, elem, length, length-append, All, All-map, Bool-cases,
  Option-cases, inl, inr,
}
use muti_ai.Feasibility.{all_unique}
use muti_ai.Keys.{fits}
use muti_ai.Plans.Spec.{PlanStepSpec, step_of, step_keys}
use muti_ai.Plans.Graph.{children, visit, drain}
use muti_ai.Plans.Children.{step_of-elem, elem-children, unique-children}
use muti_ai.Plans.Visit.{elem-snoc, visit-degrees, visit-queue, visit_unique}
use muti_ai.Plans.Rank.{missing, missing-snoc, missing-zero, rank, rank-snoc, rank-lt, rank-last}

-- A set is iterated over each of its elements once.
pub record IsSetOrder (set_order : List String → List String) : Type 0 where
  pub same : (k : String) (xs : List String) → elem k (set_order xs) ≡ elem k xs
  pub once : (xs : List String) → all_unique xs ≡ true → all_unique (set_order xs) ≡ true

-- The dict of a plan whose first loop has passed: distinct keys, and no dependency named twice.
pub record IsClean (steps : List PlanStepSpec) : Type 0 where
  pub keys : all_unique (step_keys steps) ≡ true
  pub deps :
      (k : String) (s : PlanStepSpec) → step_of k steps ≡ some s → all_unique s.depends_on ≡ true

-- What holds before every round: a degree counts the dependencies that are not ordered yet, the keys
-- of degree 0 are those that are queued or ordered, and what is ordered stands after its dependencies.
pub record IsFrontier (steps : List PlanStepSpec) (d : String → ℕ) (q o : List String)
    : Type 0 where
  pub counts :
      (k : String) (s : PlanStepSpec) → step_of k steps ≡ some s → d k ≡ missing o s.depends_on
  pub seen :
      (k : String) (s : PlanStepSpec)
      → step_of k steps ≡ some s
      → (d k == 0) ≡ (elem k q || elem k o)
  pub apart : (k : String) → elem k q ≡ true → elem k o ≡ false
  pub once : all_unique q ≡ true
  pub known : (k : String) → elem k q ≡ true → elem k (step_keys steps) ≡ true
  pub size : missing o (step_keys steps) + length o ≡ length (step_keys steps)
  pub placed :
      (k : String) (s : PlanStepSpec)
      → step_of k steps ≡ some s
      → elem k o ≡ true
      → All (λ x. (elem x o ≡ true) × (rank o x < rank o k)) s.depends_on

module _ (set_order : List String → List String) (arranged : IsSetOrder set_order)
    (steps : List PlanStepSpec) (clean : IsClean steps) where
  abbrev next_of : String → List String
  next_of k = set_order (children steps k)

  elem-next_of :
      (k j : String) (s : PlanStepSpec)
      → step_of j steps ≡ some s
      → elem j (next_of k) ≡ elem k s.depends_on
  elem-next_of k j s h =
      arranged.same j (children steps k)
      ∙ elem-children steps k j clean.keys
      ∙ ap (fits (λ s. s.step_key) (λ x. elem k x.depends_on)) h

  next_of-known :
      (k j : String) → elem j (next_of k) ≡ true → (s : PlanStepSpec) × (step_of j steps ≡ some s)
  next_of-known k j h = elim (Option-cases (step_of j steps)) [
    | inl found ↦ found
    | inr absent ↦
        absurd
          (ground (arith, arranged.same j (children steps k), elem-children steps k j, clean.keys))
  ]

  once-next_of : (k : String) → all_unique (next_of k) ≡ true
  once-next_of k = arranged.once (children steps k) (unique-children steps k clean.keys)

  module _ (k : String) (d : String → ℕ) (q o : List String)
      (f : IsFrontier steps d (k ∷ q) o) where
    first_apart : elem k o ≡ false
    first_apart = f.apart k (ground arith)

    counts' :
        (j : String) (s : PlanStepSpec)
        → step_of j steps ≡ some s
        → (visit (next_of k) d q).0 j ≡ missing (o ++ k ∷ []) s.depends_on
    counts' j s h = ground (
      arith,
      visit-degrees (next_of k) d q j (once-next_of k),
      elem-next_of k j s h,
      f.counts j s h,
      missing-snoc o k s.depends_on (clean.deps j s h) first_apart,
    )

    -- A child waits for `k`, so it has a positive degree and was not queued.
    child_waits :
        (j : String) (s : PlanStepSpec)
        → step_of j steps ≡ some s
        → elem j (next_of k) ≡ true
        → (0 < d j) × ((elem j (k ∷ q) || elem j o) ≡ false)
    child_waits j s h inside =
        let waits : 0 < d j = ground (
          arith,
          elem-next_of k j s h,
          f.counts j s h,
          missing-snoc o k s.depends_on (clean.deps j s h) first_apart,
        ) in
        (waits, ground (arith, f.seen j s h))

    seen' :
        (j : String) (s : PlanStepSpec)
        → step_of j steps ≡ some s
        → ((visit (next_of k) d q).0 j == 0)
          ≡ (elem j (visit (next_of k) d q).1 || elem j (o ++ k ∷ []))
    seen' j s h = elim (Bool-cases (elem j (next_of k))) [
      | inl inside ↦ ground (
        arith,
        visit-degrees (next_of k) d q j (once-next_of k),
        visit-queue (next_of k) d q j (once-next_of k),
        child_waits j s h inside,
        elem-snoc j k o,
      )
      | inr outside ↦ ground (
        arith,
        visit-degrees (next_of k) d q j (once-next_of k),
        visit-queue (next_of k) d q j (once-next_of k),
        f.seen j s h,
        elem-snoc j k o,
      )
    ]

    apart' : (j : String) → elem j (visit (next_of k) d q).1 ≡ true → elem j (o ++ k ∷ []) ≡ false
    unfolding all_unique
    apart' j h = elim (Bool-cases (elem j q)) [
      | inl queued ↦ ground (arith, f.apart j, f.once, elem-snoc j k o)
      | inr not_queued ↦
          let inside : elem j (next_of k) ≡ true =
            ground (arith, visit-queue (next_of k) d q j (once-next_of k)) in
          let (s, found) = next_of-known k j inside in
          ground (arith, child_waits j s found inside, elem-snoc j k o)
    ]

    once' : all_unique (visit (next_of k) d q).1 ≡ true
    unfolding all_unique
    once' = visit_unique (next_of k) d q (once-next_of k) (ground (arith, f.once)) (λ j inside last.
        let (s, found) = next_of-known k j inside in ground (arith, child_waits j s found inside))

    known' :
        (j : String) → elem j (visit (next_of k) d q).1 ≡ true → elem j (step_keys steps) ≡ true
    known' j h = elim (Bool-cases (elem j q)) [
      | inl queued ↦ f.known j (ground arith)
      | inr not_queued ↦
          let inside : elem j (next_of k) ≡ true =
            ground (arith, visit-queue (next_of k) d q j (once-next_of k)) in
          let (s, found) = next_of-known k j inside in ground (arith, step_of-elem j steps)
    ]

    size' :
        missing (o ++ k ∷ []) (step_keys steps) + length (o ++ k ∷ []) ≡ length (step_keys steps)
    size' = ground (
      arith,
      f.size,
      f.known k,
      missing-snoc o k (step_keys steps) clean.keys first_apart,
      length-append o (k ∷ []),
    )

    All-ordered :
        (s : PlanStepSpec) → step_of k steps ≡ some s → All (λ x. elem x o ≡ true) s.depends_on
    All-ordered s h = missing-zero o s.depends_on (ground (arith, f.counts k s h, f.seen k s h))

    placed' :
        (j : String) (s : PlanStepSpec)
        → step_of j steps ≡ some s
        → elem j (o ++ k ∷ []) ≡ true
        → All
            (λ x. (elem x (o ++ k ∷ []) ≡ true) × (rank (o ++ k ∷ []) x < rank (o ++ k ∷ []) j))
            s.depends_on
    placed' j s h inside = elim (Bool-cases (elem j o)) [
      | inl before ↦
          All-map (λ x. (elem x o ≡ true) × (rank o x < rank o j))
            (λ x. (elem x (o ++ k ∷ []) ≡ true) × (rank (o ++ k ∷ []) x < rank (o ++ k ∷ []) j))
            s.depends_on
            (λ x old. (
              ground (arith, elem-snoc x k o),
              omega (arith, old.1, rank-snoc o k x old.0, rank-snoc o k j before),
            ))
            (f.placed j s h before)
      | inr now ↦
          let this : k ≡ j = ground (arith, elem-snoc j k o) in
          All-map (λ x. elem x o ≡ true)
            (λ x. (elem x (o ++ k ∷ []) ≡ true) × (rank (o ++ k ∷ []) x < rank (o ++ k ∷ []) j))
            s.depends_on
            (λ x old. (
              ground (arith, elem-snoc x k o),
              subst (λ y. rank (o ++ k ∷ []) x < rank (o ++ k ∷ []) y) this
                  (omega (arith, rank-snoc o k x old, rank-last o k first_apart, rank-lt o x old)),
            ))
            (All-ordered s (subst (λ y. step_of y steps ≡ some s) (sym this) h))
    ]

    visit-IsFrontier :
        IsFrontier steps (visit (next_of k) d q).0 (visit (next_of k) d q).1 (o ++ k ∷ [])
    visit-IsFrontier = record {
      counts = counts';
      seen = seen';
      apart = apart';
      once = once';
      known = known';
      size = size';
      placed = placed';
    }

  -- With more fuel than steps are left, the loop ends with an empty queue, and the invariant holds.
  pub drain-IsFrontier :
      (fuel : ℕ) (d : String → ℕ) (q o : List String)
      → IsFrontier steps d q o
      → missing o (step_keys steps) < fuel
      → (o' : List String) × (drain set_order steps fuel d q o ≡ some o')
        × (d' : String → ℕ) × IsFrontier steps d' [] o'
  unfolding drain
  drain-IsFrontier zero d q o f enough = absurd (ground arith)
  drain-IsFrontier (suc fuel) d [] o f enough = (o, refl, d, f)
  drain-IsFrontier (suc fuel) d (k ∷ q) o f enough =
      drain-IsFrontier fuel (visit (next_of k) d q).0 (visit (next_of k) d q).1 (o ++ k ∷ [])
        (visit-IsFrontier k d q o f)
        (ground
          (arith, f.known k, missing-snoc o k (step_keys steps) clean.keys (first_apart k d q o f)))
