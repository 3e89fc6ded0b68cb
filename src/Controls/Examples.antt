-- ===== src/Controls/Examples.antt =====
-- Runs of the admission service (src/mutiai/services/runtime_controls.py) on a small database.
use muti_ai.Prelude.{
  ℕ, ◌+◌, ◌<◌, ◌≤◌, ◌≡◌, ◌≢◌, ◌↔◌, refl, true, false, none, some, [], ◌∷◌, arith, get_or, find?,
  sum, set_first, String-discrete, Option-discrete,
}
use muti_ai.Models.Task.{RuntimeExecution, RuntimeExecutionStatus-discrete}
use muti_ai.Models.Samples.{task, assignment, execution as submitted}
use muti_ai.Models.Control.{
  RuntimeControlPolicy, RuntimeCapacity, CapacityStatus, CapacityStatus-discrete, RuntimeTokenUsage,
}
use muti_ai.Database.{Session, Draws}
use muti_ai.Controls.Types.{Settings}
use muti_ai.Controls.Policies.{ensure_policy}
use muti_ai.Controls.Activity.{active_execution_count, owner_of, owner_in, is_active, belongs}
use muti_ai.Controls.Capacity.{read_capacity, record_provider_capacity}
use muti_ai.Controls.Saving.{same_execution}
use muti_ai.Controls.Admit.{admit, admit_below_limit}
use muti_ai.Controls.Settle.{settle, settle_open, charged_execution}
use muti_ai.Controls.Policy.{ensured}
use muti_ai.Controls.Admission.{admits, Fits, policy_for, active_for, admit-admits_iff}
use muti_ai.Controls.Budget.{IsWithinBudget, admit-IsWithinBudget, settle-IsWithinBudget}
use muti_ai.Controls.Ledger.{IsBalanced, reserved, held, held_by}
use muti_ai.Controls.Ready.{IsOwn, belongs-owned}
use muti_ai.Controls.Balance.{admit-IsBalanced, settle-IsBalanced}
use muti_ai.Controls.Settlement.{settle-settle, admit_refused}

abbrev draws : Draws
draws = record { utc_now = λ k. 1000 + k; new_id = λ k. "id" }

abbrev settings : Settings
settings = record {
  runtime_max_concurrent_executions = 2;
  runtime_token_budget_limit = some 500;
  runtime_token_reservation_per_execution = some 100;
}

abbrev execution : (reserved_tokens : ℕ) → RuntimeExecution
execution reserved_tokens = record submitted { reserved_tokens = reserved_tokens }

abbrev policy : (tokens_reserved : ℕ) → RuntimeControlPolicy
policy tokens_reserved = record {
  runtime_control_policy_id = "p";
  owner_user_id = "u";
  provider = "codex";
  max_concurrent_executions = 2;
  token_budget_limit = some 500;
  token_reservation_per_execution = some 100;
  tokens_reserved = tokens_reserved;
  tokens_consumed = 350;
  created_at = 1;
  updated_at = 1;
}

-- One execution, with its reservation.
abbrev database : (reserved_tokens : ℕ) → Session
database n = record {
  tasks = task ∷ [];
  assignments = assignment ∷ [];
  executions = execution n ∷ [];
  events = [];
  approvals = [];
  policies = policy n ∷ [];
  capacities = [];
  plans = [];
  plan_steps = [];
  dependencies = [];
}

abbrev usage : RuntimeTokenUsage
usage = record {
  input_tokens = 40;
  cached_input_tokens = 0;
  output_tokens = 20;
  reasoning_output_tokens = 0;
  total_tokens = 60;
}

abbrev limited : RuntimeCapacity
limited = record { status = CapacityStatus.limited; reason = none; resets_at = some 7 }

database-IsOwn : (n : ℕ) → IsOwn (database n) task (execution n)
unfolding owner_of owner_in String-discrete
database-IsOwn n = record { stored = refl; owned = refl }

policy-Fits : (n : ℕ) → n ≤ 150 → Fits (policy n) 0
policy-Fits n small limit e = ground arith

admitted : admits (admit draws settings none task (execution 0) (database 0)) ≡ true
unfolding admit ensure_policy active_execution_count owner_of owner_in is_active belongs
    admit_below_limit record_provider_capacity read_capacity String-discrete Option-discrete
    RuntimeExecutionStatus-discrete CapacityStatus-discrete
admitted = refl

refused : admits (admit draws settings (some limited) task (execution 0) (database 0)) ≡ false
unfolding admit ensure_policy active_execution_count owner_of owner_in is_active belongs
    admit_below_limit record_provider_capacity read_capacity String-discrete Option-discrete
    RuntimeExecutionStatus-discrete CapacityStatus-discrete
refused = refl

database-IsBalanced : (n : ℕ) → IsBalanced (database n)
unfolding reserved held held_by sum
database-IsBalanced n = record {
  balance = λ o q.
      ground (arith, belongs-owned (database n) task (execution n) o q (database-IsOwn n).owned);
}

settled_row :
    find?
      (same_execution (execution 100))
      (settle draws settings task (execution 100) (some usage) (database 100)).1.executions
    ≡ some (charged_execution draws 60 (some usage) (execution 100))
unfolding settle ensure_policy settle_open charged_execution String-discrete set_first
settled_row = refl

reservation_part :
    (execution 100).reserved_tokens
    ≤ (ensured draws settings "u" "codex" (database 100)).0.tokens_reserved
unfolding ensure_policy String-discrete
reservation_part = omega arith

admit-admits_iff_example :
    (admits (admit draws settings none task (execution 0) (database 0)) ≡ true) ↔ (
      (active_for draws settings none task (execution 0) (database 0)
        < (policy_for draws settings none task
            (execution 0)
            (database 0)).max_concurrent_executions)
      × ((read_capacity none).status ≢ CapacityStatus.limited)
      × Fits (policy_for draws settings none task (execution 0) (database 0)) (
          get_or
            (policy_for draws settings none task
              (execution 0)
              (database 0)).token_reservation_per_execution
            0))
admit-admits_iff_example = admit-admits_iff draws settings none task (execution 0) (database 0)

admit-IsWithinBudget_example :
    IsWithinBudget (admit draws settings none task (execution 0) (database 0)).1
admit-IsWithinBudget_example =
    admit-IsWithinBudget draws settings none task (execution 0) (database 0)
      (policy-Fits 0 (omega arith), tt)

settle-IsWithinBudget_example :
    IsWithinBudget (settle draws settings task (execution 100) (some usage) (database 100)).1
settle-IsWithinBudget_example =
    settle-IsWithinBudget draws settings task (execution 100) (some usage) (database 100)
      (policy-Fits 100 (omega arith), tt) (omega arith) reservation_part

admit-IsBalanced_example : IsBalanced (admit draws settings none task (execution 0) (database 0)).1
admit-IsBalanced_example =
    admit-IsBalanced draws settings none task (execution 0) (database 0) (database-IsOwn 0) refl
      (database-IsBalanced 0)

settle-IsBalanced_example :
    IsBalanced (settle draws settings task (execution 100) (some usage) (database 100)).1
settle-IsBalanced_example =
    settle-IsBalanced draws settings task (execution 100) (some usage) (database 100)
      (database-IsOwn 100) (database-IsBalanced 100)

admit_refused_example :
    ((admit draws settings (some limited) task (execution 0) (database 0)).1.executions
      ≡ (database 0).executions)
    × ((admit draws settings (some limited) task (execution 0) (database 0)).1.policies
        ≡ (ensured draws settings "u" "codex" (database 0)).1.policies)
admit_refused_example =
    admit_refused draws settings (some limited) task (execution 0) (database 0) refused

settle-settle_example :
    settle draws settings task
      (charged_execution draws 60 (some usage) (execution 100))
      none
      (settle draws settings task (execution 100) (some usage) (database 100)).1
    ≡ settle draws settings task (execution 100) (some usage) (database 100)
settle-settle_example =
    settle-settle draws draws settings task (execution 100)
      (charged_execution draws 60 (some usage) (execution 100)) (some usage) none (database 100)
      (database-IsOwn 100).stored settled_row
