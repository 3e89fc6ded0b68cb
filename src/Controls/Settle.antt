-- ===== src/Controls/Settle.antt =====
-- src/mutiai/services/runtime_controls.py: `settle`.
use muti_ai.Prelude.{ℕ, ◌+◌, ◌-◌, Option, none, some, string_eq, option_eq, get_or}
use muti_ai.Models.Task.{Task, RuntimeExecution, execution_status_eq, UsageStatus}
use muti_ai.Models.Control.{RuntimeControlPolicy, capacity_status_eq, RuntimeTokenUsage}
use muti_ai.Database.{Session, Draws}
use muti_ai.Controls.Types.{Settings}
use muti_ai.Controls.Policies.{ensure_policy}
use muti_ai.Controls.Saving.{save_policy, save_execution}

-- The token counts that `settle` copies from the usage, if there is one.
unfoldable pub charged_execution :
    Draws → ℕ → Option RuntimeTokenUsage → RuntimeExecution → RuntimeExecution
charged_execution draws charged none execution = record execution {
  reserved_tokens = 0;
  charged_tokens = some charged;
  usage_status = UsageStatus.unavailable;
  budget_settled_at = some (draws.utc_now 3);
}
charged_execution draws charged (some usage) execution = record execution {
  reserved_tokens = 0;
  charged_tokens = some charged;
  usage_status = UsageStatus.reported;
  input_tokens = some usage.input_tokens;
  cached_input_tokens = some usage.cached_input_tokens;
  output_tokens = some usage.output_tokens;
  reasoning_output_tokens = some usage.reasoning_output_tokens;
  total_tokens = some usage.total_tokens;
  budget_settled_at = some (draws.utc_now 3);
}

abbrev pub charge : Option RuntimeTokenUsage → RuntimeExecution → ℕ
charge none execution = execution.reserved_tokens
charge (some usage) execution = usage.total_tokens

-- `settle` of an execution that is not settled yet. `max(0, reserved - reservation)` is the
-- subtraction of ℕ.
unfoldable pub settle_open :
    Draws
    → Task
    → RuntimeExecution
    → Option RuntimeTokenUsage
    → RuntimeControlPolicy
    → Session
    → ℕ × Session
settle_open draws task execution usage policy s =
    let charged = charge usage execution in
    (
      charged,
      save_execution (charged_execution draws charged usage execution) (
          save_policy task.owner_user_id execution.provider
            (record policy {
              tokens_reserved = policy.tokens_reserved - execution.reserved_tokens;
              tokens_consumed = policy.tokens_consumed + charged;
              updated_at = draws.utc_now 2;
            })
            s),
    )

unfoldable pub settle :
    Draws → Settings → Task → RuntimeExecution → Option RuntimeTokenUsage → Session → ℕ × Session
settle draws settings task execution usage s = elim execution.budget_settled_at [
  | some _ ↦ (get_or execution.charged_tokens 0, s)
  | none ↦
      let (policy, s') = ensure_policy draws settings task.owner_user_id execution.provider s in
      settle_open draws task execution usage policy s'
]
