-- ===== src/Approvals/Dropped.antt =====
-- An `Event` that has left `_waiters` (src/mutiai/services/approvals.py), and that no call sets again.
use muti_ai.Prelude.{
  ℕ, suc, String, ◌≡◌, ◌∙◌, sym, ap, subst, refl, Bool, true, false, some, List, [], ◌∷◌, ◌<◌,
  arith, ◌==◌, string_eq, option_eq, nat_eq, find?, filter, length, length-append, update_where,
  All, All-update_where, All-append_one, Option-cases, Bool-cases, inl, inr, true≢false,
}
use muti_ai.Models.Task.{task_status_eq, execution_status_eq}
use muti_ai.Models.Approval.{
  ApprovalRequest, ApprovalDecision, approval_status_eq, approval_decision_eq,
}
use muti_ai.Database.{Draws}
use muti_ai.Approvals.State.{Coordinator, Waiter, get, pending, get_task}
use muti_ai.Approvals.Waiting.{waiter_of, register, set_waiter, set_waiters, pop_waiter}
use muti_ai.Approvals.Deciding.{decidable_row, decide_pending, decide, is_waiting}
use muti_ai.Approvals.Cancelling.{pending_of, cancel_all, cancel_task, close}
use muti_ai.Approvals.Loop.{check, clear}

-- If it is this `Event`, it is not in `_waiters`, and its flag is down.
abbrev pub Down : ℕ → Waiter → Type 0
Down n w = w.event ≡ n → (w.is_listed ≡ false) × (w.is_set ≡ false)

-- The `Event` was made, has left `_waiters`, and its flag is down.
pub record IsDropped (n : ℕ) (ws : List Waiter) : Type 0 where
  pub made : n < length ws
  pub down : All (Down n) ws

length-update_where :
    (p : Waiter → Bool) (f : Waiter → Waiter) (ws : List Waiter)
    → length (update_where p f ws) ≡ length ws
length-update_where p f [] = refl
length-update_where p f (w ∷ ws) = ap suc (length-update_where p f ws)

module _ (n : ℕ) where
  update-IsDropped :
      (p : Waiter → Bool) (f : Waiter → Waiter) (ws : List Waiter)
      → ((w : Waiter) → p w ≡ true → Down n w → Down n (f w))
      → IsDropped n ws
      → IsDropped n (update_where p f ws)
  update-IsDropped p f ws hit h = record {
    made = subst (λ m. n < m) (sym (length-update_where p f ws)) h.made;
    down = All-update_where (Down n) (Down n) p f ws hit (λ w miss old. old) h.down;
  }

  -- What is listed is not the dropped `Event`.
  listed-Down : (w v : Waiter) → w.is_listed ≡ true → v.event ≡ w.event → Down n w → Down n v
  listed-Down w v up same old e = absurd (true≢false (sym up ∙ (old (sym same ∙ e)).0))

  listed-waiter_of : (i : String) (w : Waiter) → waiter_of i w ≡ true → w.is_listed ≡ true
  listed-waiter_of i w hit = ground arith

  set_waiter-IsDropped :
      (i : String) (ws : List Waiter) → IsDropped n ws → IsDropped n (set_waiter i ws)
  unfolding set_waiter
  set_waiter-IsDropped i ws h =
      update-IsDropped (waiter_of i) (λ w. record w { is_set = true }) ws
        (λ w hit old.
          listed-Down w (record w { is_set = true }) (listed-waiter_of i w hit) refl old)
        h

  set_waiters-IsDropped :
      (ids : List String) (ws : List Waiter) → IsDropped n ws → IsDropped n (set_waiters ids ws)
  unfolding set_waiters
  set_waiters-IsDropped [] ws h = h
  set_waiters-IsDropped (i ∷ ids) ws h =
      set_waiters-IsDropped ids (set_waiter i ws) (set_waiter-IsDropped i ws h)

  pop_waiter-IsDropped :
      (i : String) (ws : List Waiter) → IsDropped n ws → IsDropped n (pop_waiter i ws)
  unfolding pop_waiter
  pop_waiter-IsDropped i ws h =
      update-IsDropped (waiter_of i) (λ w. record w { is_listed = false }) ws
        (λ w hit old.
          listed-Down w (record w { is_listed = false }) (listed-waiter_of i w hit) refl old)
        h

  pub register-IsDropped :
      (i : String) (ws : List Waiter) → IsDropped n ws → IsDropped n (register i ws).1
  unfolding register
  register-IsDropped i ws h = elim (Option-cases (find? (waiter_of i) ws)) [
    | inl (w, e) ↦ rw (e, register) h
    | inr e ↦
        let w : Waiter = record {
          event = length ws;
          approval_id = i;
          is_set = false;
          is_listed = true;
        } in
        rw (e, register)
          (record {
            made = omega (arith, h.made, length-append ws (w ∷ []));
            down = All-append_one (Down n) w ws (λ e'. absurd (omega (arith, h.made, e'))) h.down;
          })
  ]

  module _ (draws : Draws) (approval_id task_id owner : String) (d : ApprovalDecision) where
    decide_pending-IsDropped :
        (a : ApprovalRequest) (c : Coordinator)
        → IsDropped n c.waiters
        → IsDropped n (decide_pending draws approval_id task_id owner d a c).1.waiters
    unfolding decide_pending
    decide_pending-IsDropped a c h =
        elim (Option-cases (find? (waiter_of a.approval_id) c.waiters)) [
          | inr e ↦ rw (e, decide_pending) h
          | inl (w, e) ↦
              rw (e, decide_pending)
                (elim (Bool-cases (is_waiting a.runtime_execution_id c.session)) [
                  | inr idle ↦ rw idle h
                  | inl waits ↦ rw waits (elim (Option-cases (get_task a.task_id c.session)) [
                    | inr e' ↦ rw e' h
                    | inl (task, e') ↦ rw e' (set_waiter-IsDropped a.approval_id c.waiters h)
                  ])
                ])
        ]

    pub decide-IsDropped :
        (c : Coordinator)
        → IsDropped n c.waiters
        → IsDropped n (decide draws approval_id task_id owner d c).1.waiters
    unfolding decide
    decide-IsDropped c h = elim (Option-cases (decidable_row approval_id task_id owner c.session)) [
      | inr e ↦ rw (e, decide) h
      | inl (a, e) ↦
          rw (e, decide)
            (elim (Bool-cases (pending a)) [
              | inl open_ ↦ rw open_ (decide_pending-IsDropped a c h)
              | inr done ↦ rw done (elim (Bool-cases (a.decision == some d)) [
                | inl same ↦ rw same h
                | inr other ↦ rw other h
              ])
            ])
    ]

  pub cancel_task-IsDropped :
      (draws : Draws) (task_id reason : String) (c : Coordinator)
      → IsDropped n c.waiters
      → IsDropped n (cancel_task draws task_id reason c).1.waiters
  unfolding cancel_task
  cancel_task-IsDropped draws task_id reason c h =
      elim (Option-cases (get_task task_id c.session)) [
        | inr e ↦ rw (e, cancel_task) h
        | inl (task, e) ↦
            rw (e, cancel_task)
              (set_waiters-IsDropped
                (cancel_all "product" reason draws (filter (pending_of task_id) c.session.approvals)
                  c.session).0
                c.waiters h)
      ]

  pub close-IsDropped :
      (draws : Draws) (c : Coordinator)
      → IsDropped n c.waiters
      → IsDropped n (close draws c).waiters
  unfolding close
  close-IsDropped draws c h = elim (Bool-cases c.is_closed) [
    | inl e ↦ simp e h
    | inr e ↦ simp e (
        update-IsDropped (λ w. w.is_listed) (λ w. record w { is_set = true }) c.waiters
          (λ w up old. listed-Down w (record w { is_set = true }) up refl old) h)
  ]

  pub check-IsDropped :
      (i : String) (c : Coordinator) → IsDropped n c.waiters → IsDropped n (check i c).1.waiters
  unfolding check
  check-IsDropped i c h = elim (Option-cases (get i c.session.approvals)) [
    | inr missing ↦ rw (missing, check) (pop_waiter-IsDropped i c.waiters h)
    | inl (a, found) ↦
        rw (found, check)
          (elim (Bool-cases (pending a)) [
            | inr done ↦ rw done (pop_waiter-IsDropped i c.waiters h)
            | inl open_ ↦ rw open_ h
          ])
  ]

  pub clear-IsDropped :
      (event : ℕ) (c : Coordinator) → IsDropped n c.waiters → IsDropped n (clear event c).waiters
  unfolding clear
  clear-IsDropped event c h =
      update-IsDropped (λ w. w.event == event) (λ w. record w { is_set = false }) c.waiters
        (λ w hit old e. ((old e).0, refl)) h
