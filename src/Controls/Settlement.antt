-- ===== src/Controls/Settlement.antt =====
-- The writes of `settle` and of a refused `admit` (src/mutiai/services/runtime_controls.py).
use muti_ai.Prelude.{
  ℕ, ◌≡◌, refl, true, false, Option, none, some, some-injective, arith, get_or, inl, inr,
  Bool-cases, Option-cases, ap, sym, ◌∙◌, find?, find?-set_first, leb, String,
}
use muti_ai.Models.Task.{Task, RuntimeExecution}
use muti_ai.Models.Control.{
  RuntimeControlPolicy, RuntimeCapacity, RuntimeTokenUsage, capacity_status_eq,
}
use muti_ai.Database.{Session, Draws, later}
use muti_ai.Controls.Types.{Settings}
use muti_ai.Controls.Activity.{active_execution_count}
use muti_ai.Controls.Capacity.{record_provider_capacity, read_capacity}
use muti_ai.Controls.Saving.{same_execution}
use muti_ai.Controls.Admit.{admit, admit_below_limit}
use muti_ai.Controls.Settle.{charge, settle_open, settle, charged_execution}
use muti_ai.Controls.Policy.{ensured, ensure_policy-rest}
use muti_ai.Controls.Admission.{admits}

charged_fields :
    (draws : Draws) (n : ℕ) (u : Option RuntimeTokenUsage) (e : RuntimeExecution)
    → ((charged_execution draws n u e).charged_tokens ≡ some n)
      × ((charged_execution draws n u e).budget_settled_at ≡ some (draws.utc_now 3))
unfolding charged_execution
charged_fields draws n none e = (refl, refl)
charged_fields draws n (some u) e = (refl, refl)

same_execution-charged :
    (draws : Draws) (n : ℕ) (u : Option RuntimeTokenUsage) (e : RuntimeExecution)
    → (same_execution (charged_execution draws n u e) ≡ same_execution e)
      × (same_execution e (charged_execution draws n u e) ≡ true)
unfolding charged_execution
same_execution-charged draws n none e = (refl, ground arith)
same_execution-charged draws n (some u) e = (refl, ground arith)

settle_done :
    (draws : Draws) (settings : Settings) (task : Task) (row : RuntimeExecution)
    (usage : Option RuntimeTokenUsage) (s : Session) (at : ℕ)
    → row.budget_settled_at ≡ some at
    → settle draws settings task row usage s ≡ (get_or row.charged_tokens 0, s)
unfolding settle
settle_done draws settings task row usage s at e = rw (e, settle) refl

settle_first :
    (draws : Draws) (settings : Settings) (task : Task) (row : RuntimeExecution)
    (usage : Option RuntimeTokenUsage) (s : Session)
    → row.budget_settled_at ≡ none
    → settle draws settings task row usage s
      ≡ settle_open draws task row usage
          (ensured draws settings task.owner_user_id row.provider s).0
          (ensured draws settings task.owner_user_id row.provider s).1
unfolding settle
settle_first draws settings task row usage s e = ground arith

-- The row that `settle` leaves for a stored execution that was not settled before.
settle_open-row :
    (draws : Draws) (task : Task) (execution : RuntimeExecution) (usage : Option RuntimeTokenUsage)
    (policy : RuntimeControlPolicy) (s : Session)
    → find? (same_execution execution) s.executions ≡ some execution
    → find?
        (same_execution execution)
        (settle_open draws task execution usage policy s).1.executions
      ≡ some (charged_execution draws (charge usage execution) usage execution)
unfolding settle_open
settle_open-row draws task execution usage policy s stored =
    let charged = charge usage execution in
    let row = charged_execution draws charged usage execution in
    let (same, fits) = same_execution-charged draws charged usage execution in
    rw same (find?-set_first (same_execution execution) row s.executions execution stored fits)

settle_open-charge :
    (draws : Draws) (task : Task) (execution : RuntimeExecution) (usage : Option RuntimeTokenUsage)
    (policy : RuntimeControlPolicy) (s : Session)
    → (settle_open draws task execution usage policy s).0 ≡ charge usage execution
unfolding settle_open
settle_open-charge draws task execution usage policy s = refl

-- For a stored execution: settling the row that a settlement left charges nothing more and changes nothing: it returns the
-- first charge, whatever usage is reported the second time.
pub settle-settle :
    (draws again : Draws) (settings : Settings) (task : Task) (execution row : RuntimeExecution)
    (usage usage' : Option RuntimeTokenUsage) (s : Session)
    → find? (same_execution execution) s.executions ≡ some execution
    → find? (same_execution execution) (settle draws settings task execution usage s).1.executions
      ≡ some row
    → settle again settings task row usage' (settle draws settings task execution usage s).1
      ≡ settle draws settings task execution usage s
settle-settle draws again settings task execution row usage usage' s stored found =
    elim (Option-cases execution.budget_settled_at) [
      | inl (at, settled) ↦
          let done = settle_done draws settings task execution usage s at settled in
          let same : row ≡ execution =
            some-injective row execution (sym (rw done at found) ∙ stored) in
          rw (same, done) (settle_done again settings task execution usage' s at settled)
      | inr unsettled ↦
          let (policy, s') = ensured draws settings task.owner_user_id execution.provider s in
          let charged = charge usage execution in
          let after = charged_execution draws charged usage execution in
          let first = settle_first draws settings task execution usage s unsettled in
          let rest = ensure_policy-rest draws settings task.owner_user_id execution.provider s in
          let kept : find? (same_execution execution) s'.executions ≡ some execution =
            ap (find? (same_execution execution)) rest.0 ∙ stored in
          let same : row ≡ after =
            some-injective row after (
              sym (rw first at found)
              ∙ settle_open-row draws task execution usage policy s' kept) in
          let (paid, settled) = charged_fields draws charged usage execution in
          rw (first, same)
            (settle_done again settings task after usage'
                (settle_open draws task execution usage policy s').1 (draws.utc_now 3) settled
              ∙ ap (λ c. (c, (settle_open draws task execution usage policy s').1))
                  (ap (λ c. get_or c 0) paid
                    ∙ sym (settle_open-charge draws task execution usage policy s')))
    ]

record_capacity-rows :
    (draws : Draws) (owner provider : String) (c : RuntimeCapacity) (s : Session)
    → ((record_provider_capacity draws owner provider c s).executions ≡ s.executions)
      × ((record_provider_capacity draws owner provider c s).policies ≡ s.policies)
unfolding record_provider_capacity
record_capacity-rows draws owner provider c s = (ground arith, ground arith)

admit_below_limit_refused :
    (draws : Draws) (signal : Option RuntimeCapacity) (task : Task) (execution : RuntimeExecution)
    (active : ℕ) (policy : RuntimeControlPolicy) (s : Session)
    → admits (admit_below_limit draws signal task execution active policy s) ≡ false
    → ((admit_below_limit draws signal task execution active policy s).1.executions ≡ s.executions)
      × ((admit_below_limit draws signal task execution active policy s).1.policies ≡ s.policies)
unfolding admit_below_limit
admit_below_limit_refused draws signal task execution active policy s h =
    let rows =
      record_capacity-rows (later 2 draws) task.owner_user_id execution.provider
        (read_capacity signal) s in
    (ground (arith, rows), ground (arith, rows))

-- A refused or deferred admission writes no execution and no policy, except that a missing policy is
-- created.
pub admit_refused :
    (draws : Draws) (settings : Settings) (signal : Option RuntimeCapacity) (task : Task)
    (execution : RuntimeExecution) (s : Session)
    → admits (admit draws settings signal task execution s) ≡ false
    → ((admit draws settings signal task execution s).1.executions ≡ s.executions)
      × ((admit draws settings signal task execution s).1.policies
          ≡ (ensured draws settings task.owner_user_id execution.provider s).1.policies)
unfolding admit
admit_refused draws settings signal task execution s h =
    let (policy, s') = ensured draws settings task.owner_user_id execution.provider s in
    let rest = ensure_policy-rest draws settings task.owner_user_id execution.provider s in
    let active =
      active_execution_count s' task.owner_user_id execution.provider
        (some execution.execution_id) in
    elim (Bool-cases (leb policy.max_concurrent_executions active)) [
      | inl full ↦ rw full (rest.0, refl)
      | inr room ↦
          let below =
            admit_below_limit_refused draws signal task execution active policy s' (rw room at h) in
          rw room (below.0 ∙ rest.0, below.1)
    ]
