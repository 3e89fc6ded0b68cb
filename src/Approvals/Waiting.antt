-- ===== src/Approvals/Waiting.antt =====
-- src/mutiai/services/approvals.py: the waiters of the blocked workers.
use muti_ai.Prelude.{
  ℕ, String, Bool, true, false, ◌&&◌, none, some, List, [], ◌∷◌, ◌++◌, ◌==◌, string_eq, option_eq,
  find?, length, update_where,
}
use muti_ai.Models.Task.{task_status_eq, execution_status_eq}
use muti_ai.Models.Approval.{approval_status_eq, approval_decision_eq}
use muti_ai.Approvals.State.{Waiter}

-- `self._waiters.get(approval_id)` finds this one.
abbrev pub waiter_of : String → Waiter → Bool
waiter_of approval_id w = w.is_listed && w.approval_id == approval_id

-- `self._waiters.setdefault(approval_id, Event())`; two workers on one approval share the `Event`.
unfoldable pub register : String → List Waiter → ℕ × List Waiter
register approval_id ws = elim (find? (waiter_of approval_id) ws) [
  | some w ↦ (w.event, ws)
  | none ↦
      let n = length ws in
      let w : Waiter = record {
        event = n;
        approval_id = approval_id;
        is_set = false;
        is_listed = true;
      } in
      (n, ws ++ w ∷ [])
]

-- `waiter.set()` on the waiter of an approval, if there is one.
unfoldable pub set_waiter : String → List Waiter → List Waiter
set_waiter approval_id ws =
    update_where (waiter_of approval_id) (λ w. record w { is_set = true }) ws

-- `self._waiters.pop(approval_id, None)`
unfoldable pub pop_waiter : String → List Waiter → List Waiter
pop_waiter approval_id ws =
    update_where (waiter_of approval_id) (λ w. record w { is_listed = false }) ws

unfoldable pub set_waiters : List String → List Waiter → List Waiter
set_waiters [] ws = ws
set_waiters (i ∷ ids) ws = set_waiters ids (set_waiter i ws)
