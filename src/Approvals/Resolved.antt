-- ===== src/Approvals/Resolved.antt =====
-- Histories of the approval coordinator (src/mutiai/services/approvals.py): what they keep.
use muti_ai.Prelude.{
  ℕ, String, ◌≡◌, ◌∙◌, Bool, true, false, Option, none, some, List, [], ◌∷◌, arith, ◌==◌, string_eq,
  option_eq, find?, filter, All-filter, All-find?, Option-cases, Bool-cases, inl, inr,
}
use muti_ai.Models.Json.{Json}
use muti_ai.Models.Task.{Task}
use muti_ai.Models.Approval.{
  ApprovalRequest, ApprovalDecision, approval_status_eq, approval_decision_eq,
}
use muti_ai.Database.{Session, Draws, later}
use muti_ai.Approvals.State.{
  CodexApprovalRequest, Coordinator, Waiter, get, has_id, pending, get_task,
}
use muti_ai.Approvals.Resolution.{resolve}
use muti_ai.Approvals.Waiting.{waiter_of}
use muti_ai.Approvals.Deciding.{decidable_row, decide_pending, decide, is_waiting}
use muti_ai.Approvals.Cancelling.{
  pending_of, cancel_all, close_all, is_orphaned, recover_orphaned_approvals, cancel_task, close,
}
use muti_ai.Approvals.Loop.{check, wait_returns, clear}
use muti_ai.Approvals.Requesting.{request_approval}
use muti_ai.Approvals.Rows.{
  get-resolve, get-cancel_all, IsKeyed, resolve-IsKeyed, cancel_all-IsKeyed,
}

-- A call of one method, with its arguments, or a move of a worker in its loop: a check, the end of a
-- `wait()`, a `clear()`. A stored approval gets an id that no approval has.
pub data Step (dumps : Json → String) : Coordinator → Coordinator → Type 0 where
  requests :
      (draws : Draws) (request : CodexApprovalRequest) (c : Coordinator)
      → get (draws.new_id 0) c.session.approvals ≡ none
      → Step dumps c (request_approval dumps draws request c).1
  decides :
      (draws : Draws) (approval_id task_id owner : String) (d : ApprovalDecision) (c : Coordinator)
      → Step dumps c (decide draws approval_id task_id owner d c).1
  recovers : (draws : Draws) (c : Coordinator) → Step dumps c (recover_orphaned_approvals draws c).1
  cancels :
      (draws : Draws) (task_id reason : String) (c : Coordinator)
      → Step dumps c (cancel_task draws task_id reason c).1
  closes : (draws : Draws) (c : Coordinator) → Step dumps c (close draws c)
  checks : (approval_id : String) (c : Coordinator) → Step dumps c (check approval_id c).1
  wakes : (event : ℕ) (c : Coordinator) → wait_returns event c ≡ true → Step dumps c c
  clears : (event : ℕ) (c : Coordinator) → Step dumps c (clear event c)

-- The approvals `rows'` come from `rows` by a step that keeps what is resolved.
pub record Extends (rows rows' : List ApprovalRequest) : Type 0 where
  pub keeps :
      (i : String) (b : ApprovalRequest)
      → get i rows ≡ some b
      → pending b ≡ false
      → get i rows' ≡ some b
  pub keys : IsKeyed rows'

pub same-Extends : (rows : List ApprovalRequest) → IsKeyed rows → Extends rows rows
same-Extends rows k = record { keeps = λ i b h p. h; keys = k }

-- Resolving a stored pending approval.
resolve-Extends :
    (draws : Draws) (a : ApprovalRequest) (task : Task) (d : ApprovalDecision) (by : Option String)
    (source reason : String) (s : Session)
    → get a.approval_id s.approvals ≡ some a
    → pending a ≡ true
    → IsKeyed s.approvals
    → Extends s.approvals (resolve draws a task d by source reason s).approvals
resolve-Extends draws a task d by source reason s found open_ k = record {
  keeps = λ i b h p. ground (arith, get-resolve draws a task d by source reason s i, found, h);
  keys = resolve-IsKeyed draws a task d by source reason s k;
}

-- The loop over the stored pending approvals that a query selects.
cancel_all-Extends :
    (source reason : String) (draws : Draws) (p : ApprovalRequest → Bool) (s : Session)
    → ((a : ApprovalRequest) → p a ≡ true → pending a ≡ true)
    → IsKeyed s.approvals
    → Extends s.approvals (cancel_all source reason draws (filter p s.approvals) s).1.approvals
cancel_all-Extends source reason draws p s only k = record {
  keeps = λ i b h done.
      get-cancel_all source reason draws (filter p s.approvals) s i (
        All-filter (λ a. get a.approval_id s.approvals ≡ some a) (λ a. (a.approval_id == i) ≡ false)
          p s.approvals (λ a chosen found. ground (arith, only a chosen, found, h)) k.keyed)
      ∙ h;
  keys = cancel_all-IsKeyed source reason draws (filter p s.approvals) s k;
}

decidable_row-stored :
    (approval_id task_id owner : String) (a : ApprovalRequest) (s : Session)
    → decidable_row approval_id task_id owner s ≡ some a
    → IsKeyed s.approvals
    → get a.approval_id s.approvals ≡ some a
unfolding decidable_row
decidable_row-stored approval_id task_id owner a s e k =
    All-find? (λ x. get x.approval_id s.approvals ≡ some x) _ s.approvals a k.keyed e

module _ (draws : Draws) (approval_id task_id owner : String) (d : ApprovalDecision) where
  decide_pending-Extends :
      (a : ApprovalRequest) (c : Coordinator)
      → get a.approval_id c.session.approvals ≡ some a
      → pending a ≡ true
      → IsKeyed c.session.approvals
      → Extends c.session.approvals
          (decide_pending draws approval_id task_id owner d a c).1.session.approvals
  unfolding decide_pending
  decide_pending-Extends a c found open_ k =
      elim (Option-cases (find? (waiter_of a.approval_id) c.waiters)) [
        | inr e ↦ rw (e, decide_pending) (same-Extends c.session.approvals k)
        | inl (w, e) ↦
            rw (e, decide_pending)
              (elim (Bool-cases (is_waiting a.runtime_execution_id c.session)) [
                | inr idle ↦ rw idle (same-Extends c.session.approvals k)
                | inl waits ↦ rw waits (elim (Option-cases (get_task a.task_id c.session)) [
                  | inr e' ↦ rw e' (same-Extends c.session.approvals k)
                  | inl (task, e') ↦ rw e' (
                      resolve-Extends draws a task d (some owner) "product" "user_decision"
                        c.session found open_ k)
                ])
              ])
      ]

  pub decide-Extends :
      (c : Coordinator)
      → IsKeyed c.session.approvals
      → Extends c.session.approvals (decide draws approval_id task_id owner d c).1.session.approvals
  unfolding decide
  decide-Extends c k = elim (Option-cases (decidable_row approval_id task_id owner c.session)) [
    | inr e ↦ rw (e, decide) (same-Extends c.session.approvals k)
    | inl (a, e) ↦
        rw (e, decide)
          (elim (Bool-cases (pending a)) [
            | inl open_ ↦ rw open_ (
                decide_pending-Extends a c
                  (decidable_row-stored approval_id task_id owner a c.session e k) open_ k)
            | inr done ↦ rw done (elim (Bool-cases (a.decision == some d)) [
              | inl same ↦ rw same (same-Extends c.session.approvals k)
              | inr other ↦ rw other (same-Extends c.session.approvals k)
            ])
          ])
  ]

pub recover-Extends :
    (draws : Draws) (c : Coordinator)
    → IsKeyed c.session.approvals
    → Extends c.session.approvals (recover_orphaned_approvals draws c).1.session.approvals
unfolding recover_orphaned_approvals
recover-Extends draws c k =
    cancel_all-Extends "runtime.supervisor" "runtime_owner_lost" draws (is_orphaned c.session)
      c.session (λ a h. unfold is_orphaned in ground arith) k

pub cancel_task-Extends :
    (draws : Draws) (task_id reason : String) (c : Coordinator)
    → IsKeyed c.session.approvals
    → Extends c.session.approvals (cancel_task draws task_id reason c).1.session.approvals
unfolding cancel_task
cancel_task-Extends draws task_id reason c k = elim (Option-cases (get_task task_id c.session)) [
  | inr e ↦ rw (e, cancel_task) (same-Extends c.session.approvals k)
  | inl (task, e) ↦
      rw (e, cancel_task)
        (cancel_all-Extends "product" reason draws (pending_of task_id) c.session
          (λ a h. ground arith) k)
]

pub trans-Extends : (p q r : List ApprovalRequest) → Extends p q → Extends q r → Extends p r
trans-Extends p q r f g = record {
  keeps = λ i b h done. g.keeps i b (f.keeps i b h done) done;
  keys = g.keys;
}

pub close_all-Extends :
    (draws : Draws) (ws : List Waiter) (s : Session)
    → IsKeyed s.approvals
    → Extends s.approvals (close_all draws ws s).approvals
unfolding close_all
close_all-Extends draws [] s k = same-Extends s.approvals k
close_all-Extends draws (w ∷ ws) s k = elim (Option-cases (get w.approval_id s.approvals)) [
  | inr e ↦ rw (e, close_all) (close_all-Extends draws ws s k)
  | inl (a, e) ↦
      rw (e, close_all)
        (elim (Bool-cases (pending a)) [
          | inr done ↦ rw done (close_all-Extends draws ws s k)
          | inl open_ ↦ rw open_ (elim (Option-cases (get_task a.task_id s)) [
            | inr e' ↦ rw e' (close_all-Extends draws ws s k)
            | inl (task, e') ↦ rw e' (
                let s' =
                  resolve draws a task ApprovalDecision.cancel none "runtime.supervisor"
                    "runtime_shutdown" s in
                let first =
                  resolve-Extends draws a task ApprovalDecision.cancel none "runtime.supervisor"
                    "runtime_shutdown" s
                    (All-find? (λ x. get x.approval_id s.approvals ≡ some x) (has_id w.approval_id)
                      s.approvals a k.keyed e)
                    open_ k in
                trans-Extends s.approvals s'.approvals _ first
                  (close_all-Extends (later 2 draws) ws s' first.keys))
          ])
        ])
]
