-- ===== src/Scheduler/Cancelled.antt =====
-- What `_cancel_unreachable_steps` (src/mutiai/services/linear_scheduler.py) makes of every step.
use muti_ai.Prelude.{
  ℕ, String, ◌≡◌, ◌∙◌, subst, refl, true, false, ◌&&◌, not, Option, none, some, List, [], ◌∷◌,
  arith, if◌then◌else◌, ◌==◌, string_eq, elem, update_where, All, Bool-cases, inl, inr,
}
use muti_ai.Feasibility.{all_unique}
use muti_ai.Keys.{Found, fits, find?-update_key, find?-update_other_key}
use muti_ai.Models.Task.{Task}
use muti_ai.Models.Plan.{TaskExecutionPlan, PlanStep, step_status_eq}
use muti_ai.Database.{Session, Draws, later}
use muti_ai.Events.{append_task_event}
use muti_ai.Scheduler.Rows.{task_row, step_row, current_plan, steps_of}
use muti_ai.Scheduler.Cancel.{
  is_terminal, cancelled_step, cancel_step, cancel_steps, cancel_unreachable_steps,
}
use muti_ai.Scheduler.Sorted.{step_ids, elem-steps_of, unique-steps_of, Found-steps_of}

-- A change of the row that a query by id finds.
abbrev pub change : (PlanStep → PlanStep) → Option PlanStep → Option PlanStep
change f none = none
change f (some x) = some (f x)

abbrev settled : ℕ → PlanStep → PlanStep
settled now x = if is_terminal x.status then x else cancelled_step now x

abbrev Kept : List PlanStep → PlanStep → Type 0
Kept rows x = Found (λ y. y.plan_step_id) rows x

Kept-save :
    (a : PlanStep) (rows xs : List PlanStep)
    → elem a.plan_step_id (step_ids xs) ≡ false
    → All (Kept rows) xs
    → All (Kept (update_where (λ x. x.plan_step_id == a.plan_step_id) (λ _. a) rows)) xs
Kept-save a rows [] off h = tt
Kept-save a rows (x ∷ xs) off h = (
  find?-update_other_key (λ y. y.plan_step_id) x.plan_step_id a rows (ground arith) ∙ h.0,
  Kept-save a rows xs (ground arith) h.1,
)

cancel_steps-row :
    (draws : Draws) (task : Task) (reason : String) (now : ℕ) (xs : List PlanStep) (s : Session)
    (k : String)
    → All (Kept s.plan_steps) xs
    → all_unique (step_ids xs) ≡ true
    → step_row k (cancel_steps draws task reason now xs s).plan_steps ≡ (
        if elem k (step_ids xs)
        then change (settled now) (step_row k s.plan_steps)
        else step_row k s.plan_steps)
unfolding cancel_steps cancel_step append_task_event all_unique
cancel_steps-row draws task reason now [] s k h u = refl
cancel_steps-row draws task reason now (x ∷ xs) s k h u = elim (Bool-cases (is_terminal x.status)) [
  | inl over ↦
      let later_ = cancel_steps-row draws task reason now xs s k h.1 (ground arith) in
      rw over (elim (Bool-cases (x.plan_step_id == k)) [
        | inr other ↦ rw other later_
        | inl same ↦
            let this : x.plan_step_id ≡ k = ground arith in
            let off : elem k (step_ids xs) ≡ false =
              subst (λ y. elem y (step_ids xs) ≡ false) this (ground arith) in
            let found : step_row k s.plan_steps ≡ some x =
              subst (λ y. step_row y s.plan_steps ≡ some x) this h.0 in
            rw same (later_ ∙ rw (off, found, over) refl)
      ])
  | inr open_ ↦
      let a = cancelled_step now x in
      let rest = Kept-save a s.plan_steps xs (ground arith) h.1 in
      let later_ =
        cancel_steps-row (later 1 draws) task reason now xs (cancel_step draws task reason now x s)
          k rest (ground arith) in
      rw open_ (elim (Bool-cases (x.plan_step_id == k)) [
        | inr other ↦
            rw other (
              later_
              ∙ rw (find?-update_other_key (λ y. y.plan_step_id) k a s.plan_steps other) refl)
        | inl same ↦
            let this : x.plan_step_id ≡ k = ground arith in
            let off : elem k (step_ids xs) ≡ false =
              subst (λ y. elem y (step_ids xs) ≡ false) this (ground arith) in
            let found : step_row k s.plan_steps ≡ some x =
              subst (λ y. step_row y s.plan_steps ≡ some x) this h.0 in
            let written : step_row k
                  (update_where (λ y. y.plan_step_id == x.plan_step_id) (λ _. a) s.plan_steps)
                ≡ some a =
              subst
                (λ y.
                  step_row y
                    (update_where (λ y. y.plan_step_id == x.plan_step_id) (λ _. a) s.plan_steps)
                  ≡ some a)
                this (find?-update_key (λ y. y.plan_step_id) a x s.plan_steps h.0) in
            rw same (later_ ∙ rw (off, written, found, open_) refl)
      ])
]

-- What happens to a row: an unfinished step of the plan is cancelled, and all else stays.
abbrev pub cancelled_in : (plan_id : String) (now : ℕ) → PlanStep → PlanStep
cancelled_in plan_id now x =
    if x.plan_id == plan_id && not (is_terminal x.status) then cancelled_step now x else x

-- For a task with a plan, where the ids of steps are distinct, every step of the current plan
-- that has not ended becomes cancelled at the time of the call, and the steps that have ended and
-- those of other plans keep their rows.
pub cancel_unreachable_steps-row :
    (draws : Draws) (task_id reason : String) (s : Session) (task : Task) (plan : TaskExecutionPlan)
    (k : String)
    → task_row task_id s.tasks ≡ some task
    → current_plan task_id s.plans ≡ some plan
    → all_unique (step_ids s.plan_steps) ≡ true
    → step_row k (cancel_unreachable_steps draws task_id reason s).1.plan_steps
      ≡ change (cancelled_in plan.plan_id (draws.utc_now 0)) (step_row k s.plan_steps)
unfolding cancel_unreachable_steps
cancel_unreachable_steps-row draws task_id reason s task plan k known current u =
    rw (known, current, cancel_unreachable_steps)
      (cancel_steps-row (later 1 draws) task reason (draws.utc_now 0)
          (steps_of plan.plan_id s.plan_steps) s k (Found-steps_of plan.plan_id s.plan_steps u)
          (unique-steps_of plan.plan_id s.plan_steps u)
        ∙ rw (elem-steps_of plan.plan_id s.plan_steps u k) by_row)
  where
    by_row :
        (if fits (λ x. x.plan_step_id) (λ x. x.plan_id == plan.plan_id) (step_row k s.plan_steps)
          then change (settled (draws.utc_now 0)) (step_row k s.plan_steps)
          else step_row k s.plan_steps)
        ≡ change (cancelled_in plan.plan_id (draws.utc_now 0)) (step_row k s.plan_steps)
    by_row = ground arith
