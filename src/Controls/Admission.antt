-- ===== src/Controls/Admission.antt =====
-- Which executions `admit` (src/mutiai/services/runtime_controls.py) lets through.
use muti_ai.Prelude.{
  ℕ, ◌+◌, ◌≤◌, ◌<◌, ◌≡◌, refl, sym, ◌∙◌, true≢false, ◌≢◌, ◌↔◌, Bool, true, false, Option, none,
  some, Result, ok, err, arith, get_or, ltb, leb, Bool-cases, inl, inr,
}
use muti_ai.Models.Task.{Task, RuntimeExecution}
use muti_ai.Models.Control.{
  RuntimeControlPolicy, RuntimeCapacity, capacity_status_eq, CapacityStatus,
}
use muti_ai.Database.{Session, Draws}
use muti_ai.Controls.Types.{Settings, AdmissionError, RuntimeAdmissionDecision}
use muti_ai.Controls.Policies.{ensure_policy}
use muti_ai.Controls.Activity.{active_execution_count}
use muti_ai.Controls.Capacity.{read_capacity}
use muti_ai.Controls.Admit.{over_budget, admit_below_limit, admit}

abbrev pub admits : Result AdmissionError RuntimeAdmissionDecision × Session → Bool
admits (ok decision, _) = decision.admitted
admits (err _, _) = false

-- With `n` more tokens the policy stays within its limit, if it has one.
abbrev pub Fits : RuntimeControlPolicy → ℕ → Type 0
Fits p n =
    (limit : ℕ)
    → p.token_budget_limit ≡ some limit
    → p.tokens_consumed + p.tokens_reserved + n ≤ limit

pub over_budget-Fits : (p : RuntimeControlPolicy) (n : ℕ) → (over_budget p n ≡ false) ↔ Fits p n
over_budget-Fits p n = (λ h limit e. ground arith, λ h. fits p.token_budget_limit h)
  where
    fits :
        (limit : Option ℕ)
        → ((l : ℕ) → limit ≡ some l → p.tokens_consumed + p.tokens_reserved + n ≤ l)
        → (elim limit [ none ↦ false | some l ↦ ltb l (p.tokens_consumed + p.tokens_reserved + n) ])
          ≡ false
    fits none h = refl
    fits (some l) h = ground (arith, h l refl)

-- `admit_below_limit` lets the execution through exactly when the Provider is not limited and the
-- reservation fits.
below_limit_iff :
    (draws : Draws) (signal : Option RuntimeCapacity) (task : Task) (execution : RuntimeExecution)
    (active : ℕ) (policy : RuntimeControlPolicy) (s : Session)
    → (admits (admit_below_limit draws signal task execution active policy s) ≡ true) ↔ (
        ((read_capacity signal).status ≢ CapacityStatus.limited)
        × (over_budget policy (get_or policy.token_reservation_per_execution 0) ≡ false))
unfolding admit_below_limit
below_limit_iff draws signal task execution active policy s = (λ h. ground arith, λ h. ground arith)

-- What the service knows when it decides on `execution` for `task` in the session `s`.
module _ (draws : Draws) (settings : Settings) (signal : Option RuntimeCapacity) (task : Task)
    (execution : RuntimeExecution) (s : Session) where
  abbrev pub policy_for : RuntimeControlPolicy
  policy_for = (ensure_policy draws settings task.owner_user_id execution.provider s).0

  abbrev pub active_for : ℕ
  active_for =
      active_execution_count
        (ensure_policy draws settings task.owner_user_id execution.provider s).1 task.owner_user_id
        execution.provider (some execution.execution_id)

  -- An execution is admitted exactly when fewer executions than the limit are active (itself not
  -- counted), the Provider does not report that it is limited, and its reservation fits the budget.
  pub admit-admits_iff : (admits (admit draws settings signal task execution s) ≡ true) ↔ (
      (active_for < policy_for.max_concurrent_executions)
      × ((read_capacity signal).status ≢ CapacityStatus.limited)
      × Fits policy_for (get_or policy_for.token_reservation_per_execution 0))
  unfolding admit
  admit-admits_iff = (to, from)
    where
      below :
          (admits (
              admit_below_limit draws signal task execution active_for policy_for
                (ensure_policy draws settings task.owner_user_id execution.provider s).1)
            ≡ true)
          ↔ (((read_capacity signal).status ≢ CapacityStatus.limited)
              × (over_budget policy_for (get_or policy_for.token_reservation_per_execution 0)
                  ≡ false))
      below = below_limit_iff draws signal task execution active_for policy_for _

      fits :
          (over_budget policy_for (get_or policy_for.token_reservation_per_execution 0) ≡ false)
          ↔ Fits policy_for (get_or policy_for.token_reservation_per_execution 0)
      fits = over_budget-Fits policy_for _

      to :
          admits (admit draws settings signal task execution s) ≡ true
          → (active_for < policy_for.max_concurrent_executions)
            × ((read_capacity signal).status ≢ CapacityStatus.limited)
            × Fits policy_for (get_or policy_for.token_reservation_per_execution 0)
      to h = elim (Bool-cases (leb policy_for.max_concurrent_executions active_for)) [
        | inl full ↦ absurd (true≢false (sym h ∙ (rw full)))
        | inr room ↦ let b = below.0 (rw room at h) in (ground arith, b.0, fits.0 b.1)
      ]

      from :
          (active_for < policy_for.max_concurrent_executions)
            × ((read_capacity signal).status ≢ CapacityStatus.limited)
            × Fits policy_for (get_or policy_for.token_reservation_per_execution 0)
          → admits (admit draws settings signal task execution s) ≡ true
      from h = elim (Bool-cases (leb policy_for.max_concurrent_executions active_for)) [
        | inl full ↦ absurd (ground arith)
        | inr room ↦ rw room (below.1 (h.1, fits.1 h.2))
      ]
