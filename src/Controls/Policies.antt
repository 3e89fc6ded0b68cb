-- ===== src/Controls/Policies.antt =====
-- src/mutiai/services/runtime_controls.py: the policy of an owner for a Provider (`ensure_policy`).
use muti_ai.Prelude.{
  String, Bool, ◌&&◌, none, some, [], ◌∷◌, ◌++◌, ◌==◌, string_eq, option_eq, find?,
}
use muti_ai.Models.Task.{execution_status_eq}
use muti_ai.Models.Control.{RuntimeControlPolicy, RuntimeProviderCapacityRecord, capacity_status_eq}
use muti_ai.Database.{Session, Draws}
use muti_ai.Controls.Types.{Settings}

abbrev pub policy_of : (owner provider : String) → RuntimeControlPolicy → Bool
policy_of owner provider p = p.owner_user_id == owner && p.provider == provider

abbrev pub capacity_of : (owner provider : String) → RuntimeProviderCapacityRecord → Bool
capacity_of owner provider c = c.owner_user_id == owner && c.provider == provider

unfoldable pub new_policy : Draws → Settings → (owner provider : String) → RuntimeControlPolicy
new_policy draws settings owner provider = record {
  runtime_control_policy_id = draws.new_id 0;
  owner_user_id = owner;
  provider = provider;
  max_concurrent_executions = settings.runtime_max_concurrent_executions;
  token_budget_limit = settings.runtime_token_budget_limit;
  token_reservation_per_execution = settings.runtime_token_reservation_per_execution;
  tokens_reserved = 0;
  tokens_consumed = 0;
  created_at = draws.utc_now 0;
  updated_at = draws.utc_now 1;
}

unfoldable pub ensure_policy :
    Draws → Settings → (owner provider : String) → Session → RuntimeControlPolicy × Session
ensure_policy draws settings owner provider s = elim (find? (policy_of owner provider) s.policies) [
  | some policy ↦ (policy, s)
  | none ↦
      let policy = new_policy draws settings owner provider in
      (policy, record s { policies = s.policies ++ policy ∷ [] })
]
