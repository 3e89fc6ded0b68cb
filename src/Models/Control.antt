-- ===== src/Models/Control.antt =====
-- src/mutiai/models/runtime_control.py, and the capacity signal of src/mutiai/runtime/base.py.
use muti_ai.Prelude.{ℕ, String, Option, Eq}

pub record RuntimeControlPolicy : Type 0 where
  pub runtime_control_policy_id : String
  pub owner_user_id : String
  pub provider : String
  pub max_concurrent_executions : ℕ
  pub token_budget_limit : Option ℕ
  pub token_reservation_per_execution : Option ℕ
  pub tokens_reserved : ℕ
  pub tokens_consumed : ℕ
  pub created_at : ℕ
  pub updated_at : ℕ

pub data CapacityStatus : Type 0 where
  available limited unknown : CapacityStatus

unfoldable pub CapacityStatus-discrete : Discrete CapacityStatus
CapacityStatus-discrete = hlevel

instance abbrev pub capacity_status_eq : Eq CapacityStatus
capacity_status_eq = record { discrete = CapacityStatus-discrete }

pub record RuntimeProviderCapacityRecord : Type 0 where
  pub runtime_provider_capacity_id : String
  pub owner_user_id : String
  pub provider : String
  pub status : CapacityStatus
  pub reason : Option String
  pub resets_at : Option ℕ
  pub observed_at : ℕ

pub record RuntimeCapacity : Type 0 where
  pub status : CapacityStatus
  pub reason : Option String
  pub resets_at : Option ℕ

pub record RuntimeTokenUsage : Type 0 where
  pub input_tokens : ℕ
  pub cached_input_tokens : ℕ
  pub output_tokens : ℕ
  pub reasoning_output_tokens : ℕ
  pub total_tokens : ℕ
