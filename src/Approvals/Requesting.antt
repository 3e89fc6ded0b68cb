-- ===== src/Approvals/Requesting.antt =====
-- src/mutiai/services/approvals.py: a request of the Runtime (`request_approval`) up to its loop.
use muti_ai.Prelude.{
  String, ◌&&◌, ◌||◌, none, some, [], ◌∷◌, ◌++◌, Result, ok, err, if◌then◌else◌, ◌==◌, ◌!=◌,
  string_eq, option_eq, find?,
}
use Prim.Native.String.{◌++◌ as append}
use muti_ai.Models.Json.{Json, Fields}
use muti_ai.Models.Task.{
  Task, Assignment, RuntimeExecution, TaskStatus, task_status_eq, RuntimeExecutionStatus,
  execution_status_eq,
}
use muti_ai.Models.Approval.{
  ApprovalRequest, ApprovalStatus, ApprovalDecision, approval_status_eq, approval_decision_eq,
}
use muti_ai.Database.{Session, Draws, later}
use muti_ai.Events.{append_task_event}
use muti_ai.Approvals.State.{
  ApprovalError, CodexApprovalRequest, Coordinator, Reply, get_task, pending,
}
use muti_ai.Approvals.Resolution.{kind_text, decision_payload}
use muti_ai.Approvals.Waiting.{register}

-- `request_approval` up to its loop. `dumps` is `json.dumps` of the request's id.
module _ (dumps : Json → String) (draws : Draws) (request : CodexApprovalRequest) where
  unfoldable pub new_approval : Task → Assignment → RuntimeExecution → ApprovalRequest
  new_approval task assignment execution = record {
    approval_id = draws.new_id 0;
    task_id = task.task_id;
    assignment_id = assignment.assignment_id;
    runtime_execution_id = execution.runtime_execution_id;
    provider = execution.provider;
    kind = request.kind;
    status = ApprovalStatus.pending;
    runtime_request_id = dumps request.request_id;
    thread_id = request.thread_id;
    turn_id = request.turn_id;
    item_id = request.item_id;
    reason = request.reason;
    command = request.command;
    cwd = request.cwd;
    details = request.details;
    runtime_started_at_ms = request.runtime_started_at_ms;
    decision = none;
    decided_by_user_id = none;
    created_at = draws.utc_now 0;
    decided_at = none;
  }

  unfoldable pub add_approval :
      Task → Assignment → RuntimeExecution → ApprovalRequest → Session → Session
  add_approval task assignment execution a s =
      append_task_event (later 1 draws) task
        (record {
          event_type = "runtime.approval_requested";
          aggregate_type = "approval";
          aggregate_id = a.approval_id;
          source = append "runtime." execution.provider;
          payload = Json.obj (
              Fields.field "approval_id" (Json.str a.approval_id) (
                Fields.field "kind" (Json.str (kind_text a.kind))
                  (Fields.field "status" (Json.str "pending") Fields.end)));
          assignment_id = some assignment.assignment_id;
          runtime_execution_id = some execution.runtime_execution_id;
        })
        (record s { approvals = s.approvals ++ a ∷ [] })

  -- The request was made before in the same Turn, or it is stored now; then the worker waits for it.
  unfoldable pub join_approval :
      Task → Assignment → RuntimeExecution → Coordinator → Result ApprovalError Reply × Coordinator
  join_approval task assignment execution c =
      elim (find?
        (λ a.
          a.runtime_execution_id == execution.runtime_execution_id
          && (a.turn_id == request.turn_id && a.runtime_request_id == dumps request.request_id))
        c.session.approvals) [
          | some a ↦
              if pending a
              then (let (event, ws) = register a.approval_id c.waiters in
                  (ok (Reply.registered a.approval_id event), record c { waiters = ws }))
              else (decision_payload a, c)
          | none ↦
              let a = new_approval task assignment execution in
              let (event, ws) = register a.approval_id c.waiters in
              (
                ok (Reply.registered a.approval_id event),
                record c {
                  session = add_approval task assignment execution a c.session;
                  waiters = ws;
                },
              )
        ]

  unfoldable pub request_for :
      Task → Assignment → RuntimeExecution → Coordinator → Result ApprovalError Reply × Coordinator
  request_for task assignment execution c =
      if task.status == TaskStatus.cancelled
      then (ok (Reply.decided ApprovalDecision.cancel), c)
      else if execution.status != RuntimeExecutionStatus.waiting
      then (err (ApprovalError.not_waiting execution.execution_id), c)
      else if execution.thread_id != some request.thread_id
          || execution.turn_id != some request.turn_id
      then (err ApprovalError.turn_mismatch, c)
      else join_approval task assignment execution c

  unfoldable pub request_approval : Coordinator → Result ApprovalError Reply × Coordinator
  request_approval c =
      if c.is_closed
      then (err ApprovalError.closed, c)
      else elim (find? (λ e. e.execution_id == request.execution_id) c.session.executions) [
        | none ↦ (err (ApprovalError.no_execution request.execution_id), c)
        | some execution ↦
            elim (find? (λ x. x.assignment_id == execution.assignment_id) c.session.assignments) [
              | none ↦ (err (ApprovalError.no_assignment execution.assignment_id), c)
              | some assignment ↦ elim (get_task assignment.task_id c.session) [
                | none ↦ (err (ApprovalError.no_task assignment.task_id), c)
                | some task ↦ request_for task assignment execution c
              ]
            ]
      ]
