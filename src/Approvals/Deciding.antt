-- ===== src/Approvals/Deciding.antt =====
-- src/mutiai/services/approvals.py: a user's decision (`decide`).
use muti_ai.Prelude.{
  String, Bool, false, ◌&&◌, Option, none, some, Result, ok, err, if◌then◌else◌, ◌==◌, string_eq,
  option_eq, find?,
}
use muti_ai.Models.Task.{task_status_eq, RuntimeExecutionStatus, execution_status_eq}
use muti_ai.Models.Approval.{
  ApprovalRequest, ApprovalDecision, approval_status_eq, approval_decision_eq,
}
use muti_ai.Database.{Session, Draws}
use muti_ai.Approvals.State.{ApprovalError, Coordinator, get_task, pending}
use muti_ai.Approvals.Resolution.{resolved, resolve}
use muti_ai.Approvals.Waiting.{waiter_of, set_waiter}

-- The query of `decide`, with its join on the owner of the Task.
unfoldable pub decidable_row :
    (approval_id task_id owner : String) → Session → Option ApprovalRequest
decidable_row approval_id task_id owner s =
    find?
      (λ a.
        a.approval_id == approval_id
        && (a.task_id == task_id
            && (elim (get_task a.task_id s) [ none ↦ false | some t ↦ t.owner_user_id == owner ])))
      s.approvals

unfoldable pub is_waiting : (runtime_execution_id : String) → Session → Bool
is_waiting runtime_execution_id s =
    elim (find? (λ e. e.runtime_execution_id == runtime_execution_id) s.executions) [
      | none ↦ false
      | some e ↦ e.status == RuntimeExecutionStatus.waiting
    ]

-- `decide`: the guards, in the order of the source, and the write.
module _ (draws : Draws) (approval_id task_id owner : String) (decision : ApprovalDecision) where
  unfoldable pub decide_pending :
      ApprovalRequest → Coordinator → Result ApprovalError ApprovalRequest × Coordinator
  decide_pending a c = elim (find? (waiter_of a.approval_id) c.waiters) [
    | none ↦ (err ApprovalError.no_waiter, c)
    | some _ ↦
        if is_waiting a.runtime_execution_id c.session
        then (elim (get_task a.task_id c.session) [
          | none ↦ (err (ApprovalError.no_task a.task_id), c)
          | some task ↦ (
            ok (resolved draws a decision (some owner)),
            record c {
              session =
                  resolve draws a task decision (some owner) "product" "user_decision" c.session;
              waiters = set_waiter a.approval_id c.waiters;
            },
          )
        ])
        else (err ApprovalError.execution_not_waiting, c)
  ]

  unfoldable pub decide : Coordinator → Result ApprovalError ApprovalRequest × Coordinator
  decide c = elim (decidable_row approval_id task_id owner c.session) [
    | none ↦ (err (ApprovalError.no_approval approval_id), c)
    | some a ↦
        if pending a
        then decide_pending a c
        else if a.decision == some decision
        then (ok a, c)
        else (err ApprovalError.already_resolved, c)
  ]
