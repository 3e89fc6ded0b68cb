-- ===== src/Approvals/Resolution.antt =====
-- src/mutiai/services/approvals.py: resolving an approval (`_resolve`).
use muti_ai.Prelude.{String, Option, none, some, Result, ok, err, string_eq, option_eq}
use muti_ai.Models.Json.{Json, Fields}
use muti_ai.Models.Task.{Task, task_status_eq, execution_status_eq}
use muti_ai.Models.Approval.{
  ApprovalRequest, ApprovalKind, ApprovalStatus, ApprovalDecision, approval_status_eq,
  approval_decision_eq,
}
use muti_ai.Database.{Session, Draws, later}
use muti_ai.Events.{append_task_event}
use muti_ai.Approvals.State.{ApprovalError, Reply, put}

abbrev pub status_by_decision : ApprovalDecision → ApprovalStatus
status_by_decision ApprovalDecision.accept = ApprovalStatus.accepted
status_by_decision ApprovalDecision.decline = ApprovalStatus.declined
status_by_decision ApprovalDecision.cancel = ApprovalStatus.cancelled

-- The texts of the enumerations (`StrEnum`), as payloads hold them.
abbrev pub kind_text : ApprovalKind → String
kind_text ApprovalKind.command_execution = "command_execution"
kind_text ApprovalKind.file_change = "file_change"

abbrev status_text : ApprovalDecision → String
status_text ApprovalDecision.accept = "accepted"
status_text ApprovalDecision.decline = "declined"
status_text ApprovalDecision.cancel = "cancelled"

abbrev decision_text : ApprovalDecision → String
decision_text ApprovalDecision.accept = "accept"
decision_text ApprovalDecision.decline = "decline"
decision_text ApprovalDecision.cancel = "cancel"

unfoldable pub resolved :
    Draws
    → ApprovalRequest
    → ApprovalDecision
    → (decided_by_user_id : Option String) → ApprovalRequest
resolved draws a decision decided_by = record a {
  status = status_by_decision decision;
  decision = some decision;
  decided_by_user_id = decided_by;
  decided_at = some (draws.utc_now 0);
}

resolution_payload : ApprovalRequest → ApprovalDecision → String → Json
resolution_payload a decision reason = Json.obj (
    Fields.field "approval_id" (Json.str a.approval_id) (
      Fields.field "kind" (Json.str (kind_text a.kind)) (
        Fields.field "status" (Json.str (status_text decision)) (
          Fields.field "decision" (Json.str (decision_text decision))
            (Fields.field "reason" (Json.str reason) Fields.end)))))

-- `_resolve`
unfoldable pub resolve :
    Draws
    → ApprovalRequest
    → Task
    → ApprovalDecision
    → (decided_by_user_id : Option String) → (source reason : String) → Session
    → Session
unfolding resolution_payload
resolve draws a task decision decided_by source reason s =
    append_task_event (later 1 draws) task
      (record {
        event_type = "runtime.approval_resolved";
        aggregate_type = "approval";
        aggregate_id = a.approval_id;
        source = source;
        payload = resolution_payload a decision reason;
        assignment_id = some a.assignment_id;
        runtime_execution_id = some a.runtime_execution_id;
      })
      (record s { approvals = put (resolved draws a decision decided_by) s.approvals })

-- `_decision_payload`
unfoldable pub decision_payload : ApprovalRequest → Result ApprovalError Reply
decision_payload a = elim a.decision [
  | none ↦ err ApprovalError.unsupported_decision
  | some d ↦ ok (Reply.decided d)
]
