-- ===== src/Plans/Identity.antt =====
-- The deterministic ids and the hash of a plan (src/mutiai/services/task_plans.py).
use muti_ai.Prelude.{ℕ, String}
use Prim.Native.String.{◌++◌ as append}
use muti_ai.Models.Json.{Json}
use muti_ai.Plans.Spec.{TaskExecutionPlanSpec}

-- What Python and pydantic give: `str(uuid5(NAMESPACE_URL, name))`, the hexadecimal SHA-256 of a text
-- in UTF-8, `json.dumps` with sorted keys and without spaces, `spec.model_dump(mode="json")`, and an
-- `int` in an f-string.
pub record Identities : Type 0 where
  pub uuid5 : String → String
  pub sha256 : String → String
  pub dumps : Json → String
  pub model_dump : TaskExecutionPlanSpec → Json
  pub decimal : ℕ → String

module _ (ids : Identities) where
  unfoldable pub plan_definition_hash : TaskExecutionPlanSpec → String
  plan_definition_hash spec = ids.sha256 (ids.dumps (ids.model_dump spec))

  unfoldable pub deterministic_plan_id : (task_id : String) (plan_version : ℕ) → String
  deterministic_plan_id task_id plan_version =
      ids.uuid5
        (append "mutiai:task-plan:" (append task_id (append ":" (ids.decimal plan_version))))

  unfoldable pub deterministic_plan_step_id : (plan_id step_key : String) → String
  deterministic_plan_step_id plan_id step_key =
      ids.uuid5 (append "mutiai:plan-step:" (append plan_id (append ":" step_key)))

  unfoldable pub deterministic_dependency_id : (plan_id step_key depends_on : String) → String
  deterministic_dependency_id plan_id step_key depends_on = ids.uuid5 (
      append "mutiai:plan-dependency:"
        (append plan_id (append ":" (append step_key (append ":" depends_on)))))
