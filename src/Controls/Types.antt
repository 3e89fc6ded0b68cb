-- ===== src/Controls/Types.antt =====
-- src/mutiai/services/runtime_controls.py: the settings, errors and answers of the admission service.
use muti_ai.Prelude.{ℕ, String, Bool, Option, string_eq, option_eq}
use muti_ai.Models.Task.{execution_status_eq}
use muti_ai.Models.Control.{RuntimeCapacity, CapacityStatus, capacity_status_eq}

-- The fields of `Settings` that the service reads.
pub record Settings : Type 0 where
  pub runtime_max_concurrent_executions : ℕ
  pub runtime_token_budget_limit : Option ℕ
  pub runtime_token_reservation_per_execution : Option ℕ

pub data AdmissionError : Type 0 where
  rate_limited : (provider reason : String) (resets_at : Option ℕ) → AdmissionError
  budget_exceeded : (provider : String) (limit consumed reserved requested : ℕ) → AdmissionError

pub record RuntimeAdmissionDecision : Type 0 where
  pub admitted : Bool
  pub active_executions : ℕ
  pub max_concurrent_executions : ℕ
  pub reserved_tokens : ℕ
  pub provider_capacity : Option RuntimeCapacity

pub record RuntimeControlSnapshot : Type 0 where
  pub provider : String
  pub max_concurrent_executions : ℕ
  pub active_executions : ℕ
  pub token_budget_limit : Option ℕ
  pub token_reservation_per_execution : Option ℕ
  pub tokens_reserved : ℕ
  pub tokens_consumed : ℕ
  pub provider_capacity_status : CapacityStatus
  pub provider_capacity_reason : Option String
  pub provider_capacity_resets_at : Option ℕ
  pub provider_capacity_observed_at : Option ℕ
