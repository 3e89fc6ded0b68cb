-- ===== src/Controls/Balance.antt =====
-- `admit` and `settle` (src/mutiai/services/runtime_controls.py) keep the ledger of reservations
-- balanced, and an execution is charged once.
use muti_ai.Prelude.{
  ℕ, ◌+◌, ◌≤◌, ◌≡◌, refl, Option, none, some, arith, get_or, inl, inr, Bool-cases, Option-cases,
  leb, ap, sym, ◌∙◌, ◌==◌, find?, find?-fits, string_eq, option_eq, le-sum,
}
use muti_ai.Models.Task.{Task, RuntimeExecution}
use muti_ai.Models.Control.{
  RuntimeControlPolicy, RuntimeCapacity, RuntimeTokenUsage, CapacityStatus, capacity_status_eq,
}
use muti_ai.Database.{Session, Draws, later}
use muti_ai.Controls.Types.{Settings}
use muti_ai.Controls.Policies.{policy_of}
use muti_ai.Controls.Activity.{active_execution_count}
use muti_ai.Controls.Capacity.{read_capacity}
use muti_ai.Controls.Saving.{same_execution}
use muti_ai.Controls.Admit.{over_budget, admit_below_limit, admit, admitted_execution}
use muti_ai.Controls.Settle.{charge, settle_open, settle, charged_execution}
use muti_ai.Controls.Policy.{ensured}
use muti_ai.Controls.Ledger.{held_by, held, total, reserved, IsBalanced}
use muti_ai.Controls.Ready.{
  IsOwn, IsReady, ensure_policy-IsReady, record_capacity-IsReady, move-IsBalanced, belongs-admitted,
  belongs-charged, belongs-owned,
}

module _ (draws : Draws) (signal : Option RuntimeCapacity) (task : Task)
    (execution : RuntimeExecution) (active : ℕ) (policy : RuntimeControlPolicy) (s : Session)
    (r : IsReady task execution policy s) (unreserved : execution.reserved_tokens ≡ 0) where
  admit_below_limit-IsBalanced :
      IsBalanced (admit_below_limit draws signal task execution active policy s).1
  unfolding admit_below_limit admitted_execution
  admit_below_limit-IsBalanced =
      let reservation = get_or policy.token_reservation_per_execution 0 in
      let r' =
        record_capacity-IsReady (later 2 draws) (read_capacity signal) task execution policy s r in
      elim (Bool-cases ((read_capacity signal).status == CapacityStatus.limited)) [
        | inl limited ↦ rw limited r'.balanced
        | inr free ↦ rw free (elim (Bool-cases (over_budget policy reservation)) [
          | inl over ↦ rw over r'.balanced
          | inr fits ↦ rw fits (
              move-IsBalanced task execution (admitted_execution draws reservation execution) policy
                (record policy {
                  tokens_reserved = policy.tokens_reserved + reservation;
                  updated_at = draws.utc_now 3;
                })
                _ r'
                (find?-fits (policy_of task.owner_user_id execution.provider) s.policies policy
                  r.found)
                r'.own.stored (belongs-admitted _ draws reservation execution) (omega arith))
        ])
      ]

-- A ready execution's reservation is part of its policy's total.
IsReady-le :
    (task : Task) (execution : RuntimeExecution) (policy : RuntimeControlPolicy) (s : Session)
    → IsReady task execution policy s
    → execution.reserved_tokens ≤ policy.tokens_reserved
unfolding reserved held held_by
IsReady-le task execution policy s r =
    let owner = task.owner_user_id in
    let provider = execution.provider in
    let whole : policy.tokens_reserved ≡ held s owner provider =
      sym (ap total r.found) ∙ r.balanced.balance owner provider in
    ground (
      arith,
      whole,
      le-sum (held_by s owner provider) (same_execution execution) s.executions execution
          r.own.stored,
      belongs-owned s task execution owner provider r.own.owned,
    )

charged-reserved :
    (draws : Draws) (n : ℕ) (u : Option RuntimeTokenUsage) (e : RuntimeExecution)
    → (charged_execution draws n u e).reserved_tokens ≡ 0
unfolding charged_execution
charged-reserved draws n none e = refl
charged-reserved draws n (some u) e = refl

same_execution-charged :
    (draws : Draws) (n : ℕ) (u : Option RuntimeTokenUsage) (e : RuntimeExecution)
    → same_execution (charged_execution draws n u e) ≡ same_execution e
unfolding charged_execution
same_execution-charged draws n none e = refl
same_execution-charged draws n (some u) e = refl

settle_open-IsBalanced :
    (draws : Draws) (task : Task) (execution : RuntimeExecution) (usage : Option RuntimeTokenUsage)
    (policy : RuntimeControlPolicy) (s : Session)
    → IsReady task execution policy s
    → IsBalanced (settle_open draws task execution usage policy s).1
unfolding settle_open
settle_open-IsBalanced draws task execution usage policy s r =
    let charged = charge usage execution in
    move-IsBalanced task execution (charged_execution draws charged usage execution) policy _ s r
      (find?-fits (policy_of task.owner_user_id execution.provider) s.policies policy r.found)
      (ap (λ f. find? f s.executions) (same_execution-charged draws charged usage execution)
        ∙ r.own.stored)
      (belongs-charged s draws charged usage execution)
      (omega (
        arith,
        charged-reserved draws charged usage execution,
        IsReady-le task execution policy s r,
      ))

-- Admission keeps balanced ledgers balanced, whatever it decides, for an execution that is stored, works
-- for the owner of the task, and holds no reservation yet.
pub admit-IsBalanced :
    (draws : Draws) (settings : Settings) (signal : Option RuntimeCapacity) (task : Task)
    (execution : RuntimeExecution) (s : Session)
    → IsOwn s task execution
    → execution.reserved_tokens ≡ 0
    → IsBalanced s
    → IsBalanced (admit draws settings signal task execution s).1
unfolding admit
admit-IsBalanced draws settings signal task execution s own unreserved h =
    let r = ensure_policy-IsReady draws settings task execution s own h in
    let (policy, s') = ensured draws settings task.owner_user_id execution.provider s in
    let active =
      active_execution_count s' task.owner_user_id execution.provider
        (some execution.execution_id) in
    elim (Bool-cases (leb policy.max_concurrent_executions active)) [
      | inl full ↦ rw full r.balanced
      | inr room ↦
          rw room
            (admit_below_limit-IsBalanced draws signal task execution active policy s' r unreserved)
    ]

-- Settling keeps balanced ledgers balanced, for an execution that is stored and works for the owner of
-- the task: it releases the reservation of the execution, and no more.
pub settle-IsBalanced :
    (draws : Draws) (settings : Settings) (task : Task) (execution : RuntimeExecution)
    (usage : Option RuntimeTokenUsage) (s : Session)
    → IsOwn s task execution
    → IsBalanced s
    → IsBalanced (settle draws settings task execution usage s).1
unfolding settle
settle-IsBalanced draws settings task execution usage s own h =
    elim (Option-cases execution.budget_settled_at) [
      | inl (at, settled) ↦ rw (settled, settle) h
      | inr unsettled ↦
          rw (unsettled, settle)
            (settle_open-IsBalanced draws task execution usage _ _
              (ensure_policy-IsReady draws settings task execution s own h))
    ]
