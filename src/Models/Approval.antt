-- ===== src/Models/Approval.antt =====
-- src/mutiai/models/approval.py
use muti_ai.Prelude.{ℕ, String, Option, Eq}
use muti_ai.Models.Json.{Json}

pub data ApprovalKind : Type 0 where
  command_execution file_change : ApprovalKind

pub data ApprovalStatus : Type 0 where
  pending accepted declined cancelled : ApprovalStatus

pub data ApprovalDecision : Type 0 where
  accept decline cancel : ApprovalDecision

unfoldable pub ApprovalStatus-discrete : Discrete ApprovalStatus
ApprovalStatus-discrete = hlevel

unfoldable pub ApprovalDecision-discrete : Discrete ApprovalDecision
ApprovalDecision-discrete = hlevel

instance abbrev pub approval_status_eq : Eq ApprovalStatus
approval_status_eq = record { discrete = ApprovalStatus-discrete }

instance abbrev pub approval_decision_eq : Eq ApprovalDecision
approval_decision_eq = record { discrete = ApprovalDecision-discrete }

pub record ApprovalRequest : Type 0 where
  pub approval_id : String
  pub task_id : String
  pub assignment_id : String
  pub runtime_execution_id : String
  pub provider : String
  pub kind : ApprovalKind
  pub status : ApprovalStatus
  pub runtime_request_id : String
  pub thread_id : String
  pub turn_id : String
  pub item_id : String
  pub reason : Option String
  pub command : Option String
  pub cwd : Option String
  pub details : Json
  pub runtime_started_at_ms : Option ℕ
  pub decision : Option ApprovalDecision
  pub decided_by_user_id : Option String
  pub created_at : ℕ
  pub decided_at : Option ℕ
