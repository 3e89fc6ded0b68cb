-- ===== src/Approvals/State.antt =====
-- src/mutiai/services/approvals.py: the rows and the waiters of the approval coordinator.
use muti_ai.Prelude.{ℕ, String, Bool, Option, List, ◌==◌, string_eq, option_eq, find?, update_where}
use muti_ai.Models.Json.{Json}
use muti_ai.Models.Task.{Task, task_status_eq, execution_status_eq}
use muti_ai.Models.Approval.{
  ApprovalRequest, ApprovalKind, ApprovalStatus, ApprovalDecision, approval_status_eq,
  approval_decision_eq,
}
use muti_ai.Database.{Session}

pub data ApprovalError : Type 0 where
  closed : ApprovalError
  no_execution no_assignment no_task no_approval : String → ApprovalError
  not_waiting : String → ApprovalError
  turn_mismatch already_resolved no_waiter execution_not_waiting unsupported_decision :
      ApprovalError

-- `CodexApprovalRequest` (src/mutiai/runtime/codex.py)
pub record CodexApprovalRequest : Type 0 where
  pub request_id : Json
  pub execution_id : String
  pub kind : ApprovalKind
  pub thread_id : String
  pub turn_id : String
  pub item_id : String
  pub reason : Option String
  pub command : Option String
  pub cwd : Option String
  pub details : Json
  pub runtime_started_at_ms : Option ℕ

-- An `Event` that was made for an approval, its flag, and whether it is the entry of `_waiters` for the
-- approval. An `Event` that has left `_waiters` is kept, as a worker may still wait on it.
pub record Waiter : Type 0 where
  pub event : ℕ
  pub approval_id : String
  pub is_set : Bool
  pub is_listed : Bool

pub record Coordinator : Type 0 where
  pub session : Session
  pub waiters : List Waiter
  pub is_closed : Bool

-- What a worker gets: the decision, or an `Event` to wait on.
pub data Reply : Type 0 where
  decided : ApprovalDecision → Reply
  registered : (approval_id : String) (event : ℕ) → Reply

abbrev pub has_id : String → ApprovalRequest → Bool
has_id approval_id a = a.approval_id == approval_id

-- `session.get(ApprovalRequest, approval_id)`
abbrev pub get : String → List ApprovalRequest → Option ApprovalRequest
get approval_id rows = find? (has_id approval_id) rows

-- Assignments to the fields of an approval object are an update of the row with its primary key.
unfoldable pub put : ApprovalRequest → List ApprovalRequest → List ApprovalRequest
put a rows = update_where (has_id a.approval_id) (λ _. a) rows

abbrev pub get_task : String → Session → Option Task
get_task task_id s = find? (λ t. t.task_id == task_id) s.tasks

abbrev pub pending : ApprovalRequest → Bool
pending a = a.status == ApprovalStatus.pending
