-- ===== src/Controls/Budget.antt =====
-- The token budget of a policy (src/mutiai/services/runtime_controls.py).
use muti_ai.Prelude.{
  ℕ, ◌+◌, ◌-◌, ◌≤◌, String, ◌≡◌, Option, some, arith, get_or, All, All-set_first, inl, inr,
  Bool-cases, Option-cases, leb, ◌==◌,
}
use muti_ai.Models.Task.{Task, RuntimeExecution}
use muti_ai.Models.Control.{
  RuntimeControlPolicy, RuntimeCapacity, CapacityStatus, capacity_status_eq, RuntimeTokenUsage,
}
use muti_ai.Database.{Session, Draws, later}
use muti_ai.Controls.Types.{Settings}
use muti_ai.Controls.Policies.{policy_of, new_policy}
use muti_ai.Controls.Activity.{active_execution_count}
use muti_ai.Controls.Capacity.{record_provider_capacity, read_capacity}
use muti_ai.Controls.Admit.{over_budget, admit_below_limit, admit}
use muti_ai.Controls.Settle.{charge, settle_open, settle}
use muti_ai.Controls.Policy.{ensure_policy-All, ensured}
use muti_ai.Controls.Admission.{Fits, over_budget-Fits}

-- No policy has consumed and reserved more than its limit.
abbrev pub IsWithinBudget : Session → Type 0
IsWithinBudget s = All (λ p. Fits p 0) s.policies

new_policy-Fits :
    (draws : Draws) (settings : Settings) (owner provider : String)
    → Fits (new_policy draws settings owner provider) 0
unfolding new_policy
new_policy-Fits draws settings owner provider limit e = omega arith

pub record_capacity-policies :
    (draws : Draws) (owner provider : String) (c : RuntimeCapacity) (s : Session)
    → (record_provider_capacity draws owner provider c s).policies ≡ s.policies
unfolding record_provider_capacity
record_capacity-policies draws owner provider c s = ground arith

module _ (draws : Draws) (signal : Option RuntimeCapacity) (task : Task)
    (execution : RuntimeExecution) (active : ℕ) (policy : RuntimeControlPolicy) (s : Session)
    (h : IsWithinBudget s) where
  admit_below_limit-within :
      IsWithinBudget (admit_below_limit draws signal task execution active policy s).1
  unfolding admit_below_limit
  admit_below_limit-within =
      let s' =
        record_provider_capacity (later 2 draws) task.owner_user_id execution.provider
          (read_capacity signal) s in
      let kept : IsWithinBudget s' =
        rw
          (record_capacity-policies (later 2 draws) task.owner_user_id execution.provider
            (read_capacity signal) s)
          h in
      let reservation = get_or policy.token_reservation_per_execution 0 in
      elim (Bool-cases ((read_capacity signal).status == CapacityStatus.limited)) [
        | inl limited ↦ rw limited kept
        | inr free ↦ rw free (elim (Bool-cases (over_budget policy reservation)) [
          | inl over ↦ rw over kept
          | inr fits ↦ rw fits (
              All-set_first (λ p. Fits p 0) (policy_of task.owner_user_id execution.provider)
                (record policy {
                  tokens_reserved = policy.tokens_reserved + reservation;
                  updated_at = draws.utc_now 3;
                })
                s'.policies
                (λ limit e. omega (arith, (over_budget-Fits policy reservation).0 fits limit e))
                kept)
        ])
      ]

-- If every policy is within its budget, then so it is after `admit`, whatever that decides.
pub admit-IsWithinBudget :
    (draws : Draws) (settings : Settings) (signal : Option RuntimeCapacity) (task : Task)
    (execution : RuntimeExecution) (s : Session)
    → IsWithinBudget s
    → IsWithinBudget (admit draws settings signal task execution s).1
unfolding admit
admit-IsWithinBudget draws settings signal task execution s h =
    let (fits, within) =
      ensure_policy-All draws settings task.owner_user_id execution.provider s (λ p. Fits p 0)
        (new_policy-Fits draws settings task.owner_user_id execution.provider) h in
    let active =
      active_execution_count (ensured draws settings task.owner_user_id execution.provider s).1
        task.owner_user_id execution.provider (some execution.execution_id) in
    elim (Bool-cases (
      leb
        (ensured draws settings task.owner_user_id execution.provider s).0.max_concurrent_executions
        active)) [
          | inl full ↦ rw full within
          | inr room ↦ rw room (
              admit_below_limit-within draws signal task execution active
                (ensured draws settings task.owner_user_id execution.provider s).0
                (ensured draws settings task.owner_user_id execution.provider s).1 within)
        ]

-- If every policy is within its budget, settling takes none over it, if the Runtime used at most what was reserved for
-- the execution and the reservation is part of the policy's total.
pub settle-IsWithinBudget :
    (draws : Draws) (settings : Settings) (task : Task) (execution : RuntimeExecution)
    (usage : Option RuntimeTokenUsage) (s : Session)
    → IsWithinBudget s
    → charge usage execution ≤ execution.reserved_tokens
    → execution.reserved_tokens
      ≤ (ensured draws settings task.owner_user_id execution.provider s).0.tokens_reserved
    → IsWithinBudget (settle draws settings task execution usage s).1
unfolding settle settle_open
settle-IsWithinBudget draws settings task execution usage s h small part =
    let (fits, within) =
      ensure_policy-All draws settings task.owner_user_id execution.provider s (λ p. Fits p 0)
        (new_policy-Fits draws settings task.owner_user_id execution.provider) h in
    let p = (ensured draws settings task.owner_user_id execution.provider s).0 in
    elim (Option-cases execution.budget_settled_at) [
      | inl (at, settled) ↦ rw (settled, settle) h
      | inr unsettled ↦
          rw (unsettled, settle)
            (All-set_first (λ q. Fits q 0) (policy_of task.owner_user_id execution.provider)
              (record p {
                tokens_reserved = p.tokens_reserved - execution.reserved_tokens;
                tokens_consumed = p.tokens_consumed + charge usage execution;
                updated_at = draws.utc_now 2;
              })
              (ensured draws settings task.owner_user_id execution.provider s).1.policies
              (λ limit e. omega (arith, fits limit e)) within)
    ]
