-- ===== src/Approvals/Cancelling.antt =====
-- src/mutiai/services/approvals.py: cancellation of approvals (`recover_orphaned_approvals`, `cancel_task`, `close`).
use muti_ai.Prelude.{
  String, Bool, true, false, ◌&&◌, none, some, List, [], ◌∷◌, Result, ok, err, if◌then◌else◌, ◌==◌,
  ◌!=◌, string_eq, option_eq, find?, filter, update_where,
}
use muti_ai.Models.Task.{task_status_eq, RuntimeExecutionStatus, execution_status_eq}
use muti_ai.Models.Approval.{
  ApprovalRequest, ApprovalDecision, approval_status_eq, approval_decision_eq,
}
use muti_ai.Database.{Session, Draws, later}
use muti_ai.Approvals.State.{ApprovalError, Waiter, Coordinator, get, get_task, pending}
use muti_ai.Approvals.Resolution.{resolve}
use muti_ai.Approvals.Waiting.{set_waiters}

-- The loop over the approvals that a query gave: resolve each one by `cancel`, in order, if its Task
-- is found. Returns the ids of the resolved ones.
module _ (source reason : String) where
  unfoldable pub cancel_all : Draws → List ApprovalRequest → Session → List String × Session
  cancel_all draws [] s = ([], s)
  cancel_all draws (a ∷ rest) s = elim (get_task a.task_id s) [
    | none ↦ cancel_all draws rest s
    | some task ↦
        let s' = resolve draws a task ApprovalDecision.cancel none source reason s in
        let (ids, s'') = cancel_all (later 2 draws) rest s' in (a.approval_id ∷ ids, s'')
  ]

-- `recover_orphaned_approvals`: the pending approvals whose execution exists and is not waiting.
unfoldable pub is_orphaned : Session → ApprovalRequest → Bool
is_orphaned s a =
    pending a
    && (elim (find? (λ e. e.runtime_execution_id == a.runtime_execution_id) s.executions) [
      | none ↦ false
      | some e ↦ e.status != RuntimeExecutionStatus.waiting
    ])

unfoldable pub recover_orphaned_approvals : Draws → Coordinator → List String × Coordinator
recover_orphaned_approvals draws c =
    let (recovered, s') =
      cancel_all "runtime.supervisor" "runtime_owner_lost" draws
        (filter (is_orphaned c.session) c.session.approvals) c.session in
    (recovered, record c { session = s' })

abbrev pub pending_of : String → ApprovalRequest → Bool
pending_of task_id a = a.task_id == task_id && pending a

unfoldable pub cancel_task :
    Draws
    → (task_id reason : String) → Coordinator
    → Result ApprovalError (List String) × Coordinator
cancel_task draws task_id reason c = elim (get_task task_id c.session) [
  | none ↦ (err (ApprovalError.no_task task_id), c)
  | some task ↦
      let (ids, s') =
        cancel_all "product" reason draws (filter (pending_of task_id) c.session.approvals)
          c.session in
      (ok ids, record c { session = s'; waiters = set_waiters ids c.waiters })
]

-- The approvals of the registered waiters, read one after the other as the loop of `close` does.
unfoldable pub close_all : Draws → List Waiter → Session → Session
close_all draws [] s = s
close_all draws (w ∷ ws) s = elim (get w.approval_id s.approvals) [
  | none ↦ close_all draws ws s
  | some a ↦
      let skipped = close_all draws ws s in
      if pending a
      then (elim (get_task a.task_id s) [
        | none ↦ skipped
        | some task ↦ close_all (later 2 draws) ws (
            resolve draws a task ApprovalDecision.cancel none "runtime.supervisor"
              "runtime_shutdown" s)
      ])
      else skipped
]

unfoldable pub close : Draws → Coordinator → Coordinator
close draws c = if c.is_closed then c else record {
  session = close_all draws (filter (λ w. w.is_listed) c.waiters) c.session;
  waiters = update_where (λ w. w.is_listed) (λ w. record w { is_set = true }) c.waiters;
  is_closed = true;
}
