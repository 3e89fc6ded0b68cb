-- ===== src/Approvals/Examples.antt =====
-- Runs of the approval coordinator (src/mutiai/services/approvals.py) on a small database.
use muti_ai.Prelude.{
  ◌+◌, arith, sym, subst, ℕ_discrete, String, ◌≡◌, refl, false, none, some, [], ◌∷◌, ok, err,
  if◌then◌else◌, ◌==◌, option_eq, String-discrete, Option-discrete,
}
use muti_ai.Models.Json.{Json}
use muti_ai.Models.Task.{
  TaskStatus-discrete, RuntimeExecution, RuntimeExecutionStatus, RuntimeExecutionStatus-discrete,
}
use muti_ai.Models.Samples.{task, assignment, execution as submitted}
use muti_ai.Models.Approval.{
  ApprovalRequest, ApprovalKind, ApprovalStatus, ApprovalDecision, approval_decision_eq,
  ApprovalStatus-discrete,
}
use muti_ai.Database.{Draws}
use muti_ai.Events.{append_task_event}
use muti_ai.Approvals.State.{put, ApprovalError, CodexApprovalRequest, Coordinator, get, pending}
use muti_ai.Approvals.Resolution.{resolved, resolve}
use muti_ai.Approvals.Waiting.{register, set_waiter, pop_waiter}
use muti_ai.Approvals.Deciding.{decidable_row, is_waiting, decide_pending, decide}
use muti_ai.Approvals.Cancelling.{close}
use muti_ai.Approvals.Loop.{check, wait_returns, clear}
use muti_ai.Approvals.Requesting.{
  new_approval, add_approval, join_approval, request_for, request_approval,
}
use muti_ai.Approvals.Rows.{IsKeyed}
use muti_ai.Approvals.Resolved.{Step}
use muti_ai.Approvals.History.{Reach, Reach-get_resolved}
use muti_ai.Approvals.Dropped.{IsDropped}
use muti_ai.Approvals.Stuck.{Reach-wait_returns}
use muti_ai.Approvals.Decisions.{decide-decide}

abbrev draws : Draws
draws = record { utc_now = λ k. 1000 + k; new_id = λ k. "new" }

abbrev dumps : Json → String
dumps _ = "7"

abbrev execution : RuntimeExecution
execution = record submitted {
  status = RuntimeExecutionStatus.waiting;
  thread_id = some "thread";
  turn_id = some "turn";
  wait_reason = some "approval";
}

-- An approval that was accepted earlier.
abbrev accepted : ApprovalRequest
accepted = record {
  approval_id = "old";
  task_id = "t";
  assignment_id = "a";
  runtime_execution_id = "x";
  provider = "codex";
  kind = ApprovalKind.file_change;
  status = ApprovalStatus.accepted;
  runtime_request_id = "6";
  thread_id = "thread";
  turn_id = "turn";
  item_id = "i";
  reason = none;
  command = none;
  cwd = none;
  details = Json.null;
  runtime_started_at_ms = none;
  decision = some ApprovalDecision.accept;
  decided_by_user_id = some "u";
  created_at = 1;
  decided_at = some 2;
}

abbrev request : CodexApprovalRequest
request = record {
  request_id = Json.num 7;
  execution_id = "e";
  kind = ApprovalKind.command_execution;
  thread_id = "thread";
  turn_id = "turn";
  item_id = "j";
  reason = none;
  command = some "ls";
  cwd = none;
  details = Json.null;
  runtime_started_at_ms = none;
}

abbrev start : Coordinator
start = record {
  session = record {
    tasks = task ∷ [];
    assignments = assignment ∷ [];
    executions = execution ∷ [];
    events = [];
    approvals = accepted ∷ [];
    policies = [];
    capacities = [];
    plans = [];
    plan_steps = [];
    dependencies = [];
  };
  waiters = [];
  is_closed = false;
}

-- A worker asks and blocks; the user declines.
abbrev asked : Coordinator
asked = (request_approval dumps draws request start).1

abbrev blocked : Coordinator
blocked = (check "new" asked).1

abbrev declined : Coordinator
declined = (decide draws "new" "t" "u" ApprovalDecision.decline blocked).1

abbrev asked_row : ApprovalRequest
asked_row = new_approval dumps draws request task assignment execution

abbrev declined_row : ApprovalRequest
declined_row = resolved draws asked_row ApprovalDecision.decline (some "u")

start-IsKeyed : IsKeyed start.session.approvals
unfolding String-discrete
start-IsKeyed = record { keyed = (refl, tt) }

fresh : get "new" start.session.approvals ≡ none
unfolding String-discrete
fresh = refl

history : Reach dumps start declined
history =
    Reach.next
      (Reach.next (Reach.next Reach.here (Step.requests draws request start fresh))
        (Step.checks "new" asked))
      (Step.decides draws "new" "t" "u" ApprovalDecision.decline blocked)

old_row : get "old" start.session.approvals ≡ some accepted
unfolding String-discrete
old_row = refl

old_row_done : pending accepted ≡ false
unfolding ApprovalStatus-discrete
old_row_done = refl

decided_row :
    decide draws "new" "t" "u" ApprovalDecision.decline blocked ≡ (ok declined_row, declined)
unfolding decide decide_pending decidable_row is_waiting check request_approval request_for
    join_approval add_approval new_approval register String-discrete Option-discrete
    ApprovalStatus-discrete TaskStatus-discrete RuntimeExecutionStatus-discrete append_task_event
decided_row = refl

Reach-get_resolved_example :
    IsKeyed declined.session.approvals × (get "old" declined.session.approvals ≡ some accepted)
Reach-get_resolved_example =
    Reach-get_resolved dumps start declined "old" accepted history start-IsKeyed old_row
      old_row_done

-- Two workers ask for the same approval and read that it is pending. The decision wakes the first,
-- which clears the `Event` and leaves before the second waits.
abbrev asked_twice : Coordinator
asked_twice = (request_approval dumps draws request (check "new" asked).1).1

abbrev woken : Coordinator
woken = (decide draws "new" "t" "u" ApprovalDecision.decline (check "new" asked_twice).1).1

abbrev left : Coordinator
left = (check "new" (clear 0 woken)).1

second_goes_on : (check "new" asked_twice).0 ≡ none
unfolding check request_approval request_for join_approval add_approval new_approval register
    String-discrete Option-discrete ApprovalStatus-discrete TaskStatus-discrete
    RuntimeExecutionStatus-discrete append_task_event
second_goes_on = refl

event_left :
    left.waiters
    ≡ (record { event = 0; approval_id = "new"; is_set = false; is_listed = false }) ∷ []
unfolding decide decide_pending decidable_row is_waiting check request_approval request_for
    join_approval add_approval new_approval register String-discrete Option-discrete
    ApprovalStatus-discrete TaskStatus-discrete RuntimeExecutionStatus-discrete append_task_event
    resolve put resolved set_waiter pop_waiter clear ℕ_discrete
event_left = refl

event_left-IsDropped : IsDropped 0 left.waiters
event_left-IsDropped =
    subst (IsDropped 0) (sym event_left)
      (record { made = omega arith; down = ((λ e. (refl, refl)), tt) })

Reach-wait_returns_example : wait_returns 0 (close draws left) ≡ false
Reach-wait_returns_example =
    Reach-wait_returns dumps left (close draws left) 0
      (Reach.next Reach.here (Step.closes draws left)) event_left-IsDropped

decide-decide_example :
    (declined_row.decision ≡ some ApprovalDecision.decline)
    × (decide draws "new" "t" "u" ApprovalDecision.accept declined ≡ (
      (if declined_row.decision == some ApprovalDecision.accept
          then ok declined_row
          else err ApprovalError.already_resolved),
      declined,
    ))
decide-decide_example =
    decide-decide draws draws "new" "t" "u" ApprovalDecision.decline ApprovalDecision.accept blocked
      declined declined_row decided_row
