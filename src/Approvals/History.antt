-- ===== src/Approvals/History.antt =====
-- A resolved approval stays as it is (src/mutiai/services/approvals.py), whatever happens next.
use muti_ai.Prelude.{
  ℕ, String, ◌≡◌, refl, filter, false, ◌&&◌, ◌||◌, none, some, arith, ◌==◌, ◌!=◌, string_eq,
  option_eq, find?, find?-append_left, Option-cases, Bool-cases, inl, inr,
}
use muti_ai.Models.Json.{Json}
use muti_ai.Models.Task.{
  Task, Assignment, RuntimeExecution, TaskStatus, task_status_eq, RuntimeExecutionStatus,
  execution_status_eq,
}
use muti_ai.Models.Approval.{ApprovalRequest, approval_status_eq}
use muti_ai.Database.{Draws}
use muti_ai.Events.{append_task_event}
use muti_ai.Approvals.State.{CodexApprovalRequest, Coordinator, get, has_id, pending, get_task}
use muti_ai.Approvals.Cancelling.{close}
use muti_ai.Approvals.Loop.{check, clear}
use muti_ai.Approvals.Requesting.{
  new_approval, add_approval, join_approval, request_for, request_approval,
}
use muti_ai.Approvals.Rows.{IsKeyed, append-IsKeyed}
use muti_ai.Approvals.Resolved.{
  Step, requests, decides, recovers, cancels, closes, checks, wakes, clears, Extends, same-Extends,
  decide-Extends, recover-Extends, cancel_task-Extends, close_all-Extends, trans-Extends,
}

module _ (dumps : Json → String) (draws : Draws) (request : CodexApprovalRequest) where
  join-Extends :
      (task : Task) (assignment : Assignment) (execution : RuntimeExecution) (c : Coordinator)
      → get (draws.new_id 0) c.session.approvals ≡ none
      → IsKeyed c.session.approvals
      → Extends c.session.approvals
          (join_approval dumps draws request task assignment execution c).1.session.approvals
  unfolding join_approval add_approval append_task_event
  join-Extends task assignment execution c fresh k =
      elim (Option-cases (
        find?
          (λ a.
            a.runtime_execution_id == execution.runtime_execution_id
            && (a.turn_id == request.turn_id && a.runtime_request_id == dumps request.request_id))
          c.session.approvals)) [
            | inl (a, e) ↦
                rw (e, join_approval)
                  (elim (Bool-cases (pending a)) [
                    | inl open_ ↦ rw open_ (same-Extends c.session.approvals k)
                    | inr done ↦ rw done (same-Extends c.session.approvals k)
                  ])
            | inr e ↦
                rw (e, join_approval)
                  (record {
                    keeps = λ i b h done. find?-append_left (has_id i) c.session.approvals _ b h;
                    keys =
                        unfold new_approval in
                        append-IsKeyed (new_approval dumps draws request task assignment execution)
                          c.session.approvals fresh k;
                  })
          ]

  request_for-Extends :
      (task : Task) (assignment : Assignment) (execution : RuntimeExecution) (c : Coordinator)
      → get (draws.new_id 0) c.session.approvals ≡ none
      → IsKeyed c.session.approvals
      → Extends c.session.approvals
          (request_for dumps draws request task assignment execution c).1.session.approvals
  unfolding request_for
  request_for-Extends task assignment execution c fresh k =
      elim (Bool-cases (task.status == TaskStatus.cancelled)) [
        | inl e ↦ rw e (same-Extends c.session.approvals k)
        | inr e ↦ rw e (elim (Bool-cases (execution.status != RuntimeExecutionStatus.waiting)) [
          | inl e' ↦ rw e' (same-Extends c.session.approvals k)
          | inr e' ↦
              rw e'
                (elim (Bool-cases (
                  execution.thread_id != some request.thread_id
                  || execution.turn_id != some request.turn_id)) [
                    | inl e'' ↦ rw e'' (same-Extends c.session.approvals k)
                    | inr e'' ↦ rw e'' (join-Extends task assignment execution c fresh k)
                  ])
        ])
      ]

  request-Extends :
      (c : Coordinator)
      → get (draws.new_id 0) c.session.approvals ≡ none
      → IsKeyed c.session.approvals
      → Extends c.session.approvals (request_approval dumps draws request c).1.session.approvals
  unfolding request_approval
  request-Extends c fresh k = elim (Bool-cases c.is_closed) [
    | inl e ↦ simp e (same-Extends c.session.approvals k)
    | inr e ↦
        simp e
          (elim (Option-cases
            (find? (λ x. x.execution_id == request.execution_id) c.session.executions)) [
              | inr none_ ↦ rw none_ (same-Extends c.session.approvals k)
              | inl (execution, e₁) ↦
                  rw e₁
                    (elim (Option-cases (
                      find? (λ x. x.assignment_id == execution.assignment_id)
                        c.session.assignments)) [
                          | inr none_ ↦ rw none_ (same-Extends c.session.approvals k)
                          | inl (assignment, e₂) ↦
                              rw e₂ (elim (Option-cases (get_task assignment.task_id c.session)) [
                                | inr none_ ↦ rw none_ (same-Extends c.session.approvals k)
                                | inl (task, e₃) ↦
                                    rw e₃ (request_for-Extends task assignment execution c fresh k)
                              ])
                        ])
            ])
  ]

close-Extends :
    (draws : Draws) (c : Coordinator)
    → IsKeyed c.session.approvals
    → Extends c.session.approvals (close draws c).session.approvals
unfolding close
close-Extends draws c k = elim (Bool-cases c.is_closed) [
  | inl e ↦ simp e (same-Extends c.session.approvals k)
  | inr e ↦ simp e (close_all-Extends draws (filter (λ w. w.is_listed) c.waiters) c.session k)
]

check_session : (i : String) (c : Coordinator) → (check i c).1.session ≡ c.session
unfolding check
check_session i c = ground arith

clear_session : (n : ℕ) (c : Coordinator) → (clear n c).session ≡ c.session
unfolding clear
clear_session n c = refl

same_session-Extends :
    (c c' : Coordinator)
    → c'.session ≡ c.session
    → IsKeyed c.session.approvals
    → Extends c.session.approvals c'.session.approvals
same_session-Extends c c' e k = rw e (same-Extends c.session.approvals k)

Step-Extends :
    {dumps : Json → String} {c c' : Coordinator}
    → Step dumps c c'
    → IsKeyed c.session.approvals
    → Extends c.session.approvals c'.session.approvals
Step-Extends {dumps} (requests draws request c fresh) k =
    request-Extends dumps draws request c fresh k
Step-Extends (decides draws i t o d c) k = decide-Extends draws i t o d c k
Step-Extends (recovers draws c) k = recover-Extends draws c k
Step-Extends (cancels draws t r c) k = cancel_task-Extends draws t r c k
Step-Extends (closes draws c) k = close-Extends draws c k
Step-Extends (checks i c) k = same_session-Extends c (check i c).1 (check_session i c) k
Step-Extends (wakes n c up) k = same-Extends c.session.approvals k
Step-Extends (clears n c) k = same_session-Extends c (clear n c) (clear_session n c) k

pub data Reach (dumps : Json → String) (c : Coordinator) : Coordinator → Type 0 where
  here : Reach dumps c c
  next : {d e : Coordinator} → Reach dumps c d → Step dumps d e → Reach dumps c e

Reach-Extends :
    {dumps : Json → String} {c c' : Coordinator}
    → Reach dumps c c'
    → IsKeyed c.session.approvals
    → Extends c.session.approvals c'.session.approvals
Reach-Extends {c = c} here k = same-Extends c.session.approvals k
Reach-Extends (next r st) k =
    let before = Reach-Extends r k in trans-Extends _ _ _ before (Step-Extends st before.keys)

-- Along every sequence of calls in which new approvals get fresh ids, from distinct ids on, the ids
-- stay distinct, and an approval that is resolved keeps its row: its status, its decision, and who
-- decided when.
pub Reach-get_resolved :
    (dumps : Json → String) (c c' : Coordinator) (i : String) (b : ApprovalRequest)
    → Reach dumps c c'
    → IsKeyed c.session.approvals
    → get i c.session.approvals ≡ some b
    → pending b ≡ false
    → IsKeyed c'.session.approvals × (get i c'.session.approvals ≡ some b)
Reach-get_resolved dumps c c' i b r k found done =
    let e = Reach-Extends r k in (e.keys, e.keeps i b found done)
