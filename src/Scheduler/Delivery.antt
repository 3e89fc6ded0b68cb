-- ===== src/Scheduler/Delivery.antt =====
-- What a Runtime delivers for a step (src/mutiai/domain/task_review.py, the end of
-- src/mutiai/domain/task_plan.py), and the calls of `finalize_step` into other components.
use muti_ai.Prelude.{ℕ, zero, suc, String, Bool, Option, List, Result}
use Prim.Native.String.{[], ◌∷◌}
use muti_ai.Models.Json.{Json, Fields, strs}
use muti_ai.Models.Task.{Task, Assignment}
use muti_ai.Database.{Session}

pub data ReviewDecision : Type 0 where
  accepted needs_revision : ReviewDecision

pub record LeadReviewResult : Type 0 where
  pub decision : ReviewDecision
  pub final_summary : String
  pub issues : List String

pub data DeliveryStatus : Type 0 where
  completed blocked : DeliveryStatus

pub record ArtifactDeclaration : Type 0 where
  pub contract_key : String
  pub relative_path : String
  pub media_type : String

pub record AssignmentDelivery : Type 0 where
  pub status : DeliveryStatus
  pub summary : String
  pub artifacts : List ArtifactDeclaration

abbrev pub decision_text : ReviewDecision → String
decision_text ReviewDecision.accepted = "accepted"
decision_text ReviewDecision.needs_revision = "needs_revision"

-- `review.model_dump(mode="json")`
abbrev pub review_json : LeadReviewResult → Json
review_json r = Json.obj (
    Fields.field "decision" (Json.str (decision_text r.decision)) (
      Fields.field "final_summary" (Json.str r.final_summary)
        (Fields.field "issues" (strs r.issues) Fields.end)))

-- The dict that `finalize_step` returns.
pub record StepOutcome : Type 0 where
  pub done : Bool
  pub review : Option LeadReviewResult

-- `LookupError` and `RuntimeError` of the scheduler, and those that pass through: `ValidationError`,
-- and `escaped` of the Artifacts.
pub data FinalizeError : Type 0 where
  records_unavailable step_unavailable execution_unavailable review_unreadable : FinalizeError
  invalid_review invalid_delivery invalid_artifact : FinalizeError
  escaped : String → FinalizeError

-- The exception of the Artifacts.
pub record ArtifactError : Type 0 where
  pub code : String
  pub message : String

-- What leaves `publish_assignment_delivery`: its own exception, or another one (`OSError`,
-- `ValueError`, `WorkspaceBoundaryError`), which the scheduler does not catch.
pub data PublishError : Type 0 where
  refused : ArtifactError → PublishError
  other : String → PublishError

-- pydantic's reading of JSON, with the text of its error; the Artifacts, which commit what they
-- publish or roll back; and `str.lower`.
pub record Deliveries : Type 0 where
  pub validate_review : String → Result String LeadReviewResult
  pub validate_delivery : String → Result String AssignmentDelivery
  pub publish_assignment_delivery :
      Session
      → Task
      → Assignment
      → AssignmentDelivery
      → (source_delivery_id : String) → Result PublishError (List String) × Session
  pub lower : String → String

-- `text[:n]`
unfoldable pub first_chars : ℕ → String → String
first_chars zero s = ""
first_chars (suc n) [] = ""
first_chars (suc n) (c ∷ s) = c ∷ first_chars n s
