-- ===== src/Scheduler/Sorted.antt =====
-- `order_by(PlanStep.sequence)` (src/mutiai/services/linear_scheduler.py) keeps the rows.
use muti_ai.Prelude.{
  String, ◌≡◌, ◌∙◌, refl, true, false, ◌||◌, List, [], ◌∷◌, arith, leb, ◌==◌, string_eq, elem, map,
  filter, All, All-filter, Bool-cases, inl, inr,
}
use muti_ai.Feasibility.{all_unique}
use muti_ai.Keys.{Found, fits, elem-filter, unique-filter, unique-Found}
use muti_ai.Models.Plan.{PlanStep}
use muti_ai.Scheduler.Rows.{step_row, insert_step, by_sequence, steps_of}

abbrev pub step_ids : List PlanStep → List String
step_ids rows = map (λ x. x.plan_step_id) rows

elem-insert_step :
    (k : String) (x : PlanStep) (ys : List PlanStep)
    → elem k (step_ids (insert_step x ys)) ≡ (x.plan_step_id == k || elem k (step_ids ys))
unfolding insert_step
elem-insert_step k x [] = refl
elem-insert_step k x (y ∷ ys) = ground (arith, elem-insert_step k x ys)

elem-by_sequence :
    (k : String) (xs : List PlanStep) → elem k (step_ids (by_sequence xs)) ≡ elem k (step_ids xs)
unfolding by_sequence
elem-by_sequence k [] = refl
elem-by_sequence k (x ∷ xs) =
    ground (arith, elem-insert_step k x (by_sequence xs), elem-by_sequence k xs)

unique-insert_step :
    (x : PlanStep) (ys : List PlanStep)
    → elem x.plan_step_id (step_ids ys) ≡ false
    → all_unique (step_ids ys) ≡ true
    → all_unique (step_ids (insert_step x ys)) ≡ true
unfolding all_unique insert_step
unique-insert_step x [] h u = refl
unique-insert_step x (y ∷ ys) h u =
    ground (arith, unique-insert_step x ys, elem-insert_step y.plan_step_id x ys)

unique-by_sequence :
    (xs : List PlanStep)
    → all_unique (step_ids xs) ≡ true
    → all_unique (step_ids (by_sequence xs)) ≡ true
unfolding all_unique by_sequence
unique-by_sequence [] u = refl
unique-by_sequence (x ∷ xs) u =
    unique-insert_step x (by_sequence xs) (elem-by_sequence x.plan_step_id xs ∙ ground arith)
      (unique-by_sequence xs (ground arith))

All-insert_step {κ} :
    (P : PlanStep → Type κ) (x : PlanStep) (ys : List PlanStep)
    → P x
    → All P ys
    → All P (insert_step x ys)
unfolding insert_step
All-insert_step P x [] h all = (h, tt)
All-insert_step P x (y ∷ ys) h all = elim (Bool-cases (leb x.sequence y.sequence)) [
  | inl before ↦ rw before (h, all)
  | inr after ↦ rw after (all.0, All-insert_step P x ys h all.1)
]

All-by_sequence {κ} :
    (P : PlanStep → Type κ) (xs : List PlanStep) → All P xs → All P (by_sequence xs)
unfolding by_sequence
All-by_sequence P [] h = tt
All-by_sequence P (x ∷ xs) h = All-insert_step P x (by_sequence xs) h.0 (All-by_sequence P xs h.1)

module _ (plan_id : String) (rows : List PlanStep) (u : all_unique (step_ids rows) ≡ true) where
  pub elem-steps_of :
      (k : String)
      → elem k (step_ids (steps_of plan_id rows))
        ≡ fits (λ x. x.plan_step_id) (λ x. x.plan_id == plan_id) (step_row k rows)
  unfolding steps_of
  elem-steps_of k =
      elem-by_sequence k (filter (λ x. x.plan_id == plan_id) rows)
      ∙ elem-filter (λ x. x.plan_step_id) k (λ x. x.plan_id == plan_id) rows u

  pub unique-steps_of : all_unique (step_ids (steps_of plan_id rows)) ≡ true
  unfolding steps_of
  unique-steps_of =
      unique-by_sequence (filter (λ x. x.plan_id == plan_id) rows)
        (unique-filter (λ x. x.plan_step_id) (λ x. x.plan_id == plan_id) rows u)

  pub Found-steps_of : All (Found (λ x. x.plan_step_id) rows) (steps_of plan_id rows)
  unfolding steps_of
  Found-steps_of =
      All-by_sequence (Found (λ x. x.plan_step_id) rows) (filter (λ x. x.plan_id == plan_id) rows) (
        All-filter (Found (λ x. x.plan_step_id) rows) (Found (λ x. x.plan_step_id) rows)
          (λ x. x.plan_id == plan_id) rows (λ x e h. h) (unique-Found (λ x. x.plan_step_id) rows u))
