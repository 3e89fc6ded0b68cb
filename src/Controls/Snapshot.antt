-- ===== src/Controls/Snapshot.antt =====
-- src/mutiai/services/runtime_controls.py: `snapshot`.
use muti_ai.Prelude.{String, none, some, string_eq, option_eq, find?}
use muti_ai.Models.Task.{execution_status_eq}
use muti_ai.Models.Control.{CapacityStatus, capacity_status_eq}
use muti_ai.Database.{Session, Draws}
use muti_ai.Controls.Types.{Settings, RuntimeControlSnapshot}
use muti_ai.Controls.Policies.{capacity_of, ensure_policy}
use muti_ai.Controls.Activity.{active_execution_count}

unfoldable pub snapshot :
    Draws → Settings → (owner provider : String) → Session → RuntimeControlSnapshot × Session
snapshot draws settings owner provider s =
    let (policy, s') = ensure_policy draws settings owner provider s in
    let capacity = find? (capacity_of owner provider) s'.capacities in
    (
      record {
        provider = provider;
        max_concurrent_executions = policy.max_concurrent_executions;
        active_executions = active_execution_count s' owner provider none;
        token_budget_limit = policy.token_budget_limit;
        token_reservation_per_execution = policy.token_reservation_per_execution;
        tokens_reserved = policy.tokens_reserved;
        tokens_consumed = policy.tokens_consumed;
        provider_capacity_status = elim capacity [
          | none ↦ CapacityStatus.unknown
          | some c ↦ c.status
        ];
        provider_capacity_reason = elim capacity [ none ↦ none | some c ↦ c.reason ];
        provider_capacity_resets_at = elim capacity [ none ↦ none | some c ↦ c.resets_at ];
        provider_capacity_observed_at = elim capacity [ none ↦ none | some c ↦ some c.observed_at ];
      },
      s',
    )
