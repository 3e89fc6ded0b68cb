-- ===== src/Approvals/Loop.antt =====
-- src/mutiai/services/approvals.py: the loop of a waiting worker in `request_approval`.
use muti_ai.Prelude.{
  ℕ, String, Bool, false, Option, none, some, Result, err, if◌then◌else◌, ◌==◌, nat_eq, find?,
  update_where,
}
use muti_ai.Models.Approval.{approval_status_eq}
use muti_ai.Approvals.State.{ApprovalError, Coordinator, Reply, get, pending}
use muti_ai.Approvals.Resolution.{decision_payload}
use muti_ai.Approvals.Waiting.{pop_waiter}

-- The loop's body up to `waiter.wait()`: the decision, a failure, or `none` where the worker goes on to
-- wait. Returning and failing leave through the `finally`, which drops the approval's waiter.
unfoldable pub check : String → Coordinator → Option (Result ApprovalError Reply) × Coordinator
check approval_id c =
    let gone = record c { waiters = pop_waiter approval_id c.waiters } in
    elim (get approval_id c.session.approvals) [
      | none ↦ (some (err (ApprovalError.no_approval approval_id)), gone)
      | some a ↦ if pending a then (none, c) else (some (decision_payload a), gone)
    ]

-- `waiter.wait()` returns in a state where the flag is set, and changes nothing.
unfoldable pub wait_returns : (event : ℕ) → Coordinator → Bool
wait_returns event c = elim (find? (λ w. w.event == event) c.waiters) [
  | none ↦ false
  | some w ↦ w.is_set
]

-- `waiter.clear()`, after which the worker checks again.
unfoldable pub clear : (event : ℕ) → Coordinator → Coordinator
clear event c = record c {
  waiters = update_where (λ w. w.event == event) (λ w. record w { is_set = false }) c.waiters;
}
