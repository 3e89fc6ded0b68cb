-- ===== src/Controls/Admit.antt =====
-- src/mutiai/services/runtime_controls.py: `admit`.
use muti_ai.Prelude.{
  ℕ, ◌+◌, Bool, true, false, Option, none, some, Result, ok, err, leb, ltb, if◌then◌else◌, ◌==◌,
  string_eq, option_eq, get_or, or_text,
}
use muti_ai.Models.Task.{Task, RuntimeExecution, execution_status_eq, UsageStatus}
use muti_ai.Models.Control.{
  RuntimeControlPolicy, RuntimeCapacity, CapacityStatus, capacity_status_eq,
}
use muti_ai.Database.{Session, Draws, later}
use muti_ai.Controls.Types.{Settings, AdmissionError, RuntimeAdmissionDecision}
use muti_ai.Controls.Policies.{ensure_policy}
use muti_ai.Controls.Activity.{active_execution_count}
use muti_ai.Controls.Capacity.{read_capacity, record_provider_capacity}
use muti_ai.Controls.Saving.{save_policy, save_execution}

abbrev pub over_budget : RuntimeControlPolicy → ℕ → Bool
over_budget p reservation = elim p.token_budget_limit [
  | none ↦ false
  | some limit ↦ ltb limit (p.tokens_consumed + p.tokens_reserved + reservation)
]

-- The execution with a fresh reservation (the assignments after the checks of `admit`).
unfoldable pub admitted_execution : Draws → ℕ → RuntimeExecution → RuntimeExecution
admitted_execution draws reservation execution = record execution {
  reserved_tokens = reservation;
  charged_tokens = none;
  usage_status = UsageStatus.pending;
  input_tokens = none;
  cached_input_tokens = none;
  output_tokens = none;
  reasoning_output_tokens = none;
  total_tokens = none;
  admitted_at = some (draws.utc_now 4);
  budget_settled_at = none;
  wait_reason = none;
}

-- `admit` from the reading of the Provider's capacity on.
unfoldable pub admit_below_limit :
    Draws
    → Option RuntimeCapacity
    → Task
    → RuntimeExecution
    → (active : ℕ) → RuntimeControlPolicy
    → Session
    → Result AdmissionError RuntimeAdmissionDecision × Session
admit_below_limit draws signal task execution active policy s =
    let owner = task.owner_user_id in
    let provider = execution.provider in
    let capacity = read_capacity signal in
    let s' = record_provider_capacity (later 2 draws) owner provider capacity s in
    let reservation = get_or policy.token_reservation_per_execution 0 in
    if capacity.status == CapacityStatus.limited
    then (
      err (
          AdmissionError.rate_limited provider
            (or_text capacity.reason "provider_rate_limit_reached") capacity.resets_at),
      s',
    )
    else if over_budget policy reservation
    then (
      err (
          AdmissionError.budget_exceeded provider (get_or policy.token_budget_limit 0)
            policy.tokens_consumed policy.tokens_reserved reservation),
      s',
    )
    else (
      ok (record {
        admitted = true;
        active_executions = active;
        max_concurrent_executions = policy.max_concurrent_executions;
        reserved_tokens = reservation;
        provider_capacity = some capacity;
      }),
      save_execution (admitted_execution draws reservation execution) (
          save_policy owner provider
            (record policy {
              tokens_reserved = policy.tokens_reserved + reservation;
              updated_at = draws.utc_now 3;
            })
            s'),
    )

unfoldable pub admit :
    Draws
    → Settings
    → Option RuntimeCapacity
    → Task
    → RuntimeExecution
    → Session
    → Result AdmissionError RuntimeAdmissionDecision × Session
admit draws settings signal task execution s =
    let (policy, s') = ensure_policy draws settings task.owner_user_id execution.provider s in
    let active =
      active_execution_count s' task.owner_user_id execution.provider
        (some execution.execution_id) in
    if leb policy.max_concurrent_executions active
    then (
      ok (record {
        admitted = false;
        active_executions = active;
        max_concurrent_executions = policy.max_concurrent_executions;
        reserved_tokens = 0;
        provider_capacity = none;
      }),
      s',
    )
    else admit_below_limit draws signal task execution active policy s'
