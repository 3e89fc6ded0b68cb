-- ===== src/Approvals/Decisions.antt =====
-- What `decide` and `cancel_task` (src/mutiai/services/approvals.py) do to the pending approvals.
use muti_ai.Prelude.{
  String, ◌≡◌, refl, subst, false, some, arith, if◌then◌else◌, ◌==◌, string_eq, option_eq, find?,
  find?-fits, find?-update_where, Option-cases, Bool-cases, inl, inr, Result, ok, err,
}
use muti_ai.Models.Task.{Task}
use muti_ai.Models.Approval.{
  ApprovalRequest, ApprovalDecision, approval_status_eq, approval_decision_eq,
}
use muti_ai.Database.{Session, Draws}
use muti_ai.Events.{append_task_event}
use muti_ai.Approvals.State.{
  ApprovalError, Coordinator, has_id, put, pending, get_task, already_resolved,
}
use muti_ai.Approvals.Resolution.{resolved, resolve}
use muti_ai.Approvals.Waiting.{waiter_of}
use muti_ai.Approvals.Deciding.{decidable_row, decide, decide_pending, is_waiting}
use muti_ai.Approvals.Rows.{pending-resolved}

module _ (draws : Draws) (approval_id task_id owner : String) (d : ApprovalDecision) where
  -- A row that is already resolved is returned for its own decision, and refused for another.
  decide_done :
      (a : ApprovalRequest) (c : Coordinator)
      → decidable_row approval_id task_id owner c.session ≡ some a
      → pending a ≡ false
      → decide draws approval_id task_id owner d c
        ≡ ((if a.decision == some d then ok a else err already_resolved), c)
  unfolding decide
  decide_done a c found done =
      rw (found, decide)
        (rw done (elim (Bool-cases (a.decision == some d)) [
          | inl same ↦ rw same refl
          | inr other ↦ rw other refl
        ]))

  resolved-found :
      (a : ApprovalRequest) (task : Task) (s : Session)
      → decidable_row approval_id task_id owner s ≡ some a
      → decidable_row approval_id task_id owner
          (resolve draws a task d (some owner) "product" "user_decision" s)
        ≡ some (resolved draws a d (some owner))
  unfolding decidable_row resolve append_task_event put resolved
  resolved-found a task s found =
      find?-update_where _ (has_id a.approval_id) _ s.approvals a found (ground arith)
        (find?-fits _ s.approvals a found)

  -- After a successful decision the query finds the returned row, and it holds the decision.
  abbrev Decided : Result ApprovalError ApprovalRequest × Coordinator → Type 0
  Decided (ok a, c) =
      (decidable_row approval_id task_id owner c.session ≡ some a)
      × (pending a ≡ false)
      × (a.decision ≡ some d)
  Decided (err _, _) = Unit {0}

  decide_pending-Decided :
      (a : ApprovalRequest) (c : Coordinator)
      → decidable_row approval_id task_id owner c.session ≡ some a
      → Decided (decide_pending draws approval_id task_id owner d a c)
  unfolding decide_pending
  decide_pending-Decided a c found =
      elim (Option-cases (find? (waiter_of a.approval_id) c.waiters)) [
        | inr e ↦ rw (e, decide_pending) tt
        | inl (w, e) ↦
            rw (e, decide_pending)
              (elim (Bool-cases (is_waiting a.runtime_execution_id c.session)) [
                | inr idle ↦ rw idle tt
                | inl waits ↦ rw waits (elim (Option-cases (get_task a.task_id c.session)) [
                  | inr e' ↦ rw e' tt
                  | inl (task, e') ↦ rw e' (
                    resolved-found a task c.session found,
                    pending-resolved draws a d (some owner),
                    unfold resolved in refl,
                  )
                ])
              ])
      ]

  decide-Decided : (c : Coordinator) → Decided (decide draws approval_id task_id owner d c)
  unfolding decide
  decide-Decided c = elim (Option-cases (decidable_row approval_id task_id owner c.session)) [
    | inr e ↦ rw (e, decide) tt
    | inl (a, e) ↦
        rw (e, decide)
          (elim (Bool-cases (pending a)) [
            | inl open_ ↦ rw open_ (decide_pending-Decided a c e)
            | inr done ↦ rw done (elim (Bool-cases (a.decision == some d)) [
              | inl same ↦ rw same (e, done, ground arith)
              | inr other ↦ rw other tt
            ])
          ])
  ]

-- A successful decision is recorded, and final: the approval returned holds it, and a later call for
-- the same approval changes nothing; it returns that approval for the same decision and fails with
-- `already_resolved` for any other.
pub decide-decide :
    (draws again : Draws) (approval_id task_id owner : String) (d d' : ApprovalDecision)
    (c c' : Coordinator) (a : ApprovalRequest)
    → decide draws approval_id task_id owner d c ≡ (ok a, c')
    → (a.decision ≡ some d)
      × (decide again approval_id task_id owner d' c'
          ≡ ((if a.decision == some d' then ok a else err already_resolved), c'))
decide-decide draws again approval_id task_id owner d d' c c' a h =
    let (found, done, recorded) =
      subst (Decided draws approval_id task_id owner d) h
        (decide-Decided draws approval_id task_id owner d c) in
    (recorded, decide_done again approval_id task_id owner d' a c' found done)
