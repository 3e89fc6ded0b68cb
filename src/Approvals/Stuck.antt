-- ===== src/Approvals/Stuck.antt =====
-- A worker that waits on an `Event` which has left `_waiters` (src/mutiai/services/approvals.py).
use muti_ai.Prelude.{
  ℕ, String, ◌≡◌, refl, false, ◌&&◌, ◌||◌, some, ◌==◌, ◌!=◌, string_eq, option_eq, nat_eq, arith,
  find?, All-find?, find?-fits, Option-cases, Bool-cases, inl, inr,
}
use muti_ai.Models.Json.{Json}
use muti_ai.Models.Task.{
  Task, Assignment, RuntimeExecution, TaskStatus, task_status_eq, RuntimeExecutionStatus,
  execution_status_eq,
}
use muti_ai.Models.Approval.{approval_status_eq}
use muti_ai.Database.{Draws}
use muti_ai.Approvals.State.{CodexApprovalRequest, Coordinator, pending, get_task}
use muti_ai.Approvals.Cancelling.{recover_orphaned_approvals}
use muti_ai.Approvals.Loop.{wait_returns}
use muti_ai.Approvals.Requesting.{new_approval, join_approval, request_for, request_approval}
use muti_ai.Approvals.Resolved.{
  Step, requests, decides, recovers, cancels, closes, checks, wakes, clears,
}
use muti_ai.Approvals.History.{Reach, here, next}
use muti_ai.Approvals.Dropped.{
  Down, IsDropped, register-IsDropped, decide-IsDropped, cancel_task-IsDropped, close-IsDropped,
  check-IsDropped, clear-IsDropped,
}

module _ (n : ℕ) (dumps : Json → String) (draws : Draws) (request : CodexApprovalRequest) where
  join-IsDropped :
      (task : Task) (assignment : Assignment) (execution : RuntimeExecution) (c : Coordinator)
      → IsDropped n c.waiters
      → IsDropped n (join_approval dumps draws request task assignment execution c).1.waiters
  unfolding join_approval
  join-IsDropped task assignment execution c h =
      elim (Option-cases (
        find?
          (λ a.
            a.runtime_execution_id == execution.runtime_execution_id
            && (a.turn_id == request.turn_id && a.runtime_request_id == dumps request.request_id))
          c.session.approvals)) [
            | inl (a, e) ↦
                rw (e, join_approval)
                  (elim (Bool-cases (pending a)) [
                    | inl open_ ↦ rw open_ (register-IsDropped n a.approval_id c.waiters h)
                    | inr done ↦ rw done h
                  ])
            | inr e ↦
                rw (e, join_approval)
                  (register-IsDropped n
                    (new_approval dumps draws request task assignment execution).approval_id
                    c.waiters h)
          ]

  request_for-IsDropped :
      (task : Task) (assignment : Assignment) (execution : RuntimeExecution) (c : Coordinator)
      → IsDropped n c.waiters
      → IsDropped n (request_for dumps draws request task assignment execution c).1.waiters
  unfolding request_for
  request_for-IsDropped task assignment execution c h =
      elim (Bool-cases (task.status == TaskStatus.cancelled)) [
        | inl e ↦ rw e h
        | inr e ↦ rw e (elim (Bool-cases (execution.status != RuntimeExecutionStatus.waiting)) [
          | inl e' ↦ rw e' h
          | inr e' ↦
              rw e'
                (elim (Bool-cases (
                  execution.thread_id != some request.thread_id
                  || execution.turn_id != some request.turn_id)) [
                    | inl e'' ↦ rw e'' h
                    | inr e'' ↦ rw e'' (join-IsDropped task assignment execution c h)
                  ])
        ])
      ]

  request-IsDropped :
      (c : Coordinator)
      → IsDropped n c.waiters
      → IsDropped n (request_approval dumps draws request c).1.waiters
  unfolding request_approval
  request-IsDropped c h = elim (Bool-cases c.is_closed) [
    | inl e ↦ simp e h
    | inr e ↦
        simp e
          (elim (Option-cases
            (find? (λ x. x.execution_id == request.execution_id) c.session.executions)) [
              | inr none_ ↦ rw none_ h
              | inl (execution, e₁) ↦
                  rw e₁
                    (elim (Option-cases (
                      find? (λ x. x.assignment_id == execution.assignment_id)
                        c.session.assignments)) [
                          | inr none_ ↦ rw none_ h
                          | inl (assignment, e₂) ↦
                              rw e₂ (elim (Option-cases (get_task assignment.task_id c.session)) [
                                | inr none_ ↦ rw none_ h
                                | inl (task, e₃) ↦
                                    rw e₃ (request_for-IsDropped task assignment execution c h)
                              ])
                        ])
            ])
  ]

recover-IsDropped :
    (n : ℕ) (draws : Draws) (c : Coordinator)
    → IsDropped n c.waiters
    → IsDropped n (recover_orphaned_approvals draws c).1.waiters
unfolding recover_orphaned_approvals
recover-IsDropped n draws c h = h

Step-IsDropped :
    (n : ℕ) {dumps : Json → String} {c c' : Coordinator}
    → Step dumps c c'
    → IsDropped n c.waiters
    → IsDropped n c'.waiters
Step-IsDropped n {dumps} (requests draws request c fresh) h =
    request-IsDropped n dumps draws request c h
Step-IsDropped n (decides draws i t o d c) h = decide-IsDropped n draws i t o d c h
Step-IsDropped n (recovers draws c) h = recover-IsDropped n draws c h
Step-IsDropped n (cancels draws t r c) h = cancel_task-IsDropped n draws t r c h
Step-IsDropped n (closes draws c) h = close-IsDropped n draws c h
Step-IsDropped n (checks i c) h = check-IsDropped n i c h
Step-IsDropped n (wakes m c up) h = h
Step-IsDropped n (clears m c) h = clear-IsDropped n m c h

Reach-IsDropped :
    (n : ℕ) {dumps : Json → String} {c c' : Coordinator}
    → Reach dumps c c'
    → IsDropped n c.waiters
    → IsDropped n c'.waiters
Reach-IsDropped n here h = h
Reach-IsDropped n (next r st) h = Step-IsDropped n st (Reach-IsDropped n r h)

-- Once an `Event` has left `_waiters` with its flag down, no call sets it again, in any history that
-- gives new approvals fresh ids: a worker that waits on it waits for ever, even after `close`.
pub Reach-wait_returns :
    (dumps : Json → String) (c c' : Coordinator) (n : ℕ)
    → Reach dumps c c'
    → IsDropped n c.waiters
    → wait_returns n c' ≡ false
unfolding wait_returns
Reach-wait_returns dumps c c' n r h = elim (Option-cases (find? (λ w. w.event == n) c'.waiters)) [
  | inr e ↦ rw (e, wait_returns) refl
  | inl (w, e) ↦
      let same : w.event ≡ n =
        let fits = find?-fits (λ w. w.event == n) c'.waiters w e in ground arith in
      let dropped = Reach-IsDropped n r h in
      rw (e, wait_returns)
        (All-find? (Down n) (λ w. w.event == n) c'.waiters w dropped.down e same).1
]
