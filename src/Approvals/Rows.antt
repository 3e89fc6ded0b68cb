-- ===== src/Approvals/Rows.antt =====
-- The rows of the approval table (src/mutiai/services/approvals.py) under the writes of `_resolve`.
use muti_ai.Prelude.{
  String, ◌≡◌, refl, ◌∙◌, Bool, false, not, ◌&&◌, Option, none, some, List, [], ◌∷◌, arith,
  if◌then◌else◌, ◌==◌, string_eq, elem, All, All-update_where, All-append_one, All-map,
  find?-append, find?-append_left, ◌++◌, Option-cases, inl, inr,
}
use muti_ai.Models.Task.{Task}
use muti_ai.Models.Approval.{ApprovalRequest, ApprovalDecision, approval_status_eq}
use muti_ai.Database.{Session, Draws, later}
use muti_ai.Events.{append_task_event}
use muti_ai.Approvals.State.{has_id, get, put, pending, get_task}
use muti_ai.Approvals.Resolution.{resolved, resolve}
use muti_ai.Approvals.Cancelling.{cancel_all}

abbrev pub only_if_some : Option ApprovalRequest → ApprovalRequest → Option ApprovalRequest
only_if_some none a = none
only_if_some (some _) a = some a

pub get-put :
    (i : String) (a : ApprovalRequest) (rows : List ApprovalRequest)
    → get i (put a rows) ≡ (if a.approval_id == i then only_if_some (get i rows) a else get i rows)
unfolding put
get-put i a [] = ground arith
get-put i a (x ∷ rows) = ground (arith, get-put i a rows)

abbrev pub pending_row : Option ApprovalRequest → Bool
pending_row none = false
pending_row (some a) = pending a

-- There is an approval with the id, and it is pending.
abbrev pub is_pending : String → Session → Bool
is_pending i s = pending_row (get i s.approvals)

pub pending-resolved :
    (draws : Draws) (a : ApprovalRequest) (d : ApprovalDecision) (by : Option String)
    → pending (resolved draws a d by) ≡ false
unfolding resolved
pending-resolved draws a ApprovalDecision.accept by = ground arith
pending-resolved draws a ApprovalDecision.decline by = ground arith
pending-resolved draws a ApprovalDecision.cancel by = ground arith

module _ (draws : Draws) (a : ApprovalRequest) (task : Task) (d : ApprovalDecision)
    (by : Option String) (source reason : String) (s : Session) where
  abbrev after : Session
  after = resolve draws a task d by source reason s

  pub resolve-approvals : after.approvals ≡ put (resolved draws a d by) s.approvals
  unfolding resolve append_task_event
  resolve-approvals = refl

  pub resolve-rest : (after.tasks ≡ s.tasks) × (after.executions ≡ s.executions)
  unfolding resolve append_task_event
  resolve-rest = (refl, refl)

  pub get-resolve :
      (i : String)
      → get i after.approvals ≡ (
          if a.approval_id == i
          then only_if_some (get i s.approvals) (resolved draws a d by)
          else get i s.approvals)
  unfolding resolve append_task_event resolved
  get-resolve i = get-put i (resolved draws a d by) s.approvals

  -- Resolving an approval takes its id, and no other, out of the pending ones.
  pub is_pending-resolve :
      (i : String) → is_pending i after ≡ (is_pending i s && not (a.approval_id == i))
  is_pending-resolve i = ground (arith, get-resolve i, pending-resolved draws a d by)

module _ (source reason : String) where
  pub cancel_all-none :
      (draws : Draws) (a : ApprovalRequest) (rest : List ApprovalRequest) (s : Session)
      → get_task a.task_id s ≡ none
      → cancel_all source reason draws (a ∷ rest) s ≡ cancel_all source reason draws rest s
  unfolding cancel_all
  cancel_all-none draws a rest s e = ground arith

  pub cancel_all-some :
      (draws : Draws) (a : ApprovalRequest) (rest : List ApprovalRequest) (s : Session)
      (task : Task)
      → get_task a.task_id s ≡ some task
      → cancel_all source reason draws (a ∷ rest) s ≡ (
        a.approval_id
            ∷ (cancel_all source reason
                (later 2 draws)
                rest
                (resolve draws a task ApprovalDecision.cancel none source reason s)).0,
        (cancel_all source reason
            (later 2 draws)
            rest
            (resolve draws a task ApprovalDecision.cancel none source reason s)).1,
      )
  unfolding cancel_all
  cancel_all-some draws a rest s task e = ground arith

  -- The loop takes exactly the ids that it returns out of the pending ones.
  pub is_pending-cancel_all :
      (draws : Draws) (rows : List ApprovalRequest) (s : Session) (i : String)
      → is_pending i (cancel_all source reason draws rows s).1
        ≡ (is_pending i s && not (elem i (cancel_all source reason draws rows s).0))
  is_pending-cancel_all draws [] s i = unfold cancel_all in ground arith
  is_pending-cancel_all draws (a ∷ rest) s i = elim (Option-cases (get_task a.task_id s)) [
    | inl (task, e) ↦ rw (cancel_all-some draws a rest s task e) (
        ground (
          arith,
          is_pending-cancel_all (later 2 draws) rest
              (resolve draws a task ApprovalDecision.cancel none source reason s) i,
          is_pending-resolve draws a task ApprovalDecision.cancel none source reason s i,
        ))
    | inr e ↦ rw (cancel_all-none draws a rest s e) (is_pending-cancel_all draws rest s i)
  ]

  -- An approval that is not in the list keeps its row.
  pub get-cancel_all :
      (draws : Draws) (rows : List ApprovalRequest) (s : Session) (i : String)
      → All (λ a. (a.approval_id == i) ≡ false) rows
      → get i (cancel_all source reason draws rows s).1.approvals ≡ get i s.approvals
  get-cancel_all draws [] s i h = unfold cancel_all in refl
  get-cancel_all draws (a ∷ rest) s i h = elim (Option-cases (get_task a.task_id s)) [
    | inl (task, e) ↦ rw (cancel_all-some draws a rest s task e) (
        get-cancel_all (later 2 draws) rest
          (resolve draws a task ApprovalDecision.cancel none source reason s) i h.1
        ∙ ground
            (arith, h.0, get-resolve draws a task ApprovalDecision.cancel none source reason s i))
    | inr e ↦ rw (cancel_all-none draws a rest s e) (get-cancel_all draws rest s i h.1)
  ]

-- Every approval is found by its id: the primary keys are distinct.
pub record IsKeyed (rows : List ApprovalRequest) : Type 0 where
  pub keyed : All (λ a. get a.approval_id rows ≡ some a) rows

put-IsKeyed :
    (a : ApprovalRequest) (rows : List ApprovalRequest) → IsKeyed rows → IsKeyed (put a rows)
put-IsKeyed a rows k = record {
  keyed =
      unfold put in
      All-update_where (λ x. get x.approval_id rows ≡ some x)
        (λ x. get x.approval_id (put a rows) ≡ some x) (has_id a.approval_id) (λ _. a) rows
        (λ x same found. ground (arith, get-put a.approval_id a rows))
        (λ x other found. ground (arith, get-put x.approval_id a rows)) k.keyed;
}

pub resolve-IsKeyed :
    (draws : Draws) (a : ApprovalRequest) (task : Task) (d : ApprovalDecision) (by : Option String)
    (source reason : String) (s : Session)
    → IsKeyed s.approvals
    → IsKeyed (resolve draws a task d by source reason s).approvals
resolve-IsKeyed draws a task d by source reason s k =
    rw (resolve-approvals draws a task d by source reason s)
      (put-IsKeyed (resolved draws a d by) s.approvals k)

pub cancel_all-IsKeyed :
    (source reason : String) (draws : Draws) (rows : List ApprovalRequest) (s : Session)
    → IsKeyed s.approvals
    → IsKeyed (cancel_all source reason draws rows s).1.approvals
cancel_all-IsKeyed source reason draws [] s k = unfold cancel_all in k
cancel_all-IsKeyed source reason draws (a ∷ rest) s k = elim (Option-cases (get_task a.task_id s)) [
  | inl (task, e) ↦ rw (cancel_all-some source reason draws a rest s task e) (
      cancel_all-IsKeyed source reason (later 2 draws) rest
        (resolve draws a task ApprovalDecision.cancel none source reason s)
        (resolve-IsKeyed draws a task ApprovalDecision.cancel none source reason s k))
  | inr e ↦
      rw (cancel_all-none source reason draws a rest s e)
        (cancel_all-IsKeyed source reason draws rest s k)
]

pub append-IsKeyed :
    (a : ApprovalRequest) (rows : List ApprovalRequest)
    → get a.approval_id rows ≡ none
    → IsKeyed rows
    → IsKeyed (rows ++ a ∷ [])
append-IsKeyed a rows fresh k = record {
  keyed =
      All-append_one (λ x. get x.approval_id (rows ++ a ∷ []) ≡ some x) a rows
        (find?-append (has_id a.approval_id) rows a fresh (ground arith))
        (All-map (λ x. get x.approval_id rows ≡ some x)
          (λ x. get x.approval_id (rows ++ a ∷ []) ≡ some x) rows
          (λ x h. find?-append_left (has_id x.approval_id) rows (a ∷ []) x h) k.keyed);
}
