-- ===== src/Controls/Ready.antt =====
-- What `admit` and `settle` (src/mutiai/services/runtime_controls.py) rely on when they write: a
-- balanced ledger, the stored policy and the stored execution.
use muti_ai.Prelude.{
  ℕ, ◌+◌, String, ◌≡◌, refl, true, Option, none, some, List, [], ◌∷◌, ◌++◌, arith, inl, inr,
  Bool-cases, Option-cases, ap, sym, subst, ◌∙◌, ◌==◌, ◌&&◌, find?, find?-append,
  find?-append_other, string_eq, option_eq,
}
use muti_ai.Models.Task.{Task, RuntimeExecution}
use muti_ai.Models.Control.{
  RuntimeControlPolicy, RuntimeCapacity, RuntimeTokenUsage, RuntimeProviderCapacityRecord,
  capacity_status_eq,
}
use muti_ai.Database.{Session, Draws}
use muti_ai.Controls.Types.{Settings}
use muti_ai.Controls.Policies.{policy_of, capacity_of, new_policy}
use muti_ai.Controls.Activity.{belongs, owner_in, owner_of}
use muti_ai.Controls.Capacity.{record_provider_capacity}
use muti_ai.Controls.Saving.{same_execution, save_execution, save_policy}
use muti_ai.Controls.Admit.{admitted_execution}
use muti_ai.Controls.Settle.{charged_execution}
use muti_ai.Controls.Policy.{
  fresh_policy, fresh_policy-fits, ensured, ensure_policy_cases, ensure_policy-stored,
  ensure_policy-rest, policy_of_apart,
}
use muti_ai.Controls.Ledger.{held_by, held, total, reserved, IsBalanced, saved, saved-IsBalanced}

some-eq : (a b : String) → (some a == some b) ≡ (a == b)
some-eq a b = ground arith

-- The execution row of a Task, as both operations are called: it is stored, and the Task is its own.
pub record IsOwn (s : Session) (task : Task) (execution : RuntimeExecution) : Type 0 where
  pub stored : find? (same_execution execution) s.executions ≡ some execution
  pub owned : owner_of s execution ≡ some task.owner_user_id

pub belongs-owned :
    (s : Session) (task : Task) (e : RuntimeExecution) (o q : String)
    → owner_of s e ≡ some task.owner_user_id
    → belongs s o q e ≡ (task.owner_user_id == o && e.provider == q)
unfolding belongs
belongs-owned s task e o q h = rw (h, some-eq task.owner_user_id o) refl

owner_of-same :
    (s s' : Session) (e : RuntimeExecution)
    → s'.assignments ≡ s.assignments
    → s'.tasks ≡ s.tasks
    → owner_of s' e ≡ owner_of s e
unfolding owner_of
owner_of-same s s' e ass ts = λ i. owner_in (ass i) (ts i) e

-- Two sessions with the same ledger.
same_ledger :
    (s s' : Session)
    → s'.executions ≡ s.executions
    → s'.assignments ≡ s.assignments
    → s'.tasks ≡ s.tasks
    → (o q : String) → held s' o q ≡ held s o q
unfolding held held_by belongs owner_of
same_ledger s s' es ass ts o q = rw (es, ass, ts) refl

module _ (draws : Draws) (settings : Settings) (owner provider : String) (s : Session) where
  abbrev with_fresh : Session
  with_fresh = record s {
    policies = s.policies ++ fresh_policy draws settings owner provider s ∷ [];
  }

  -- A created policy has nothing reserved.
  reserved-with_fresh :
      find? (policy_of owner provider) s.policies ≡ none
      → (o q : String) → reserved with_fresh o q ≡ reserved s o q
  unfolding reserved new_policy
  reserved-with_fresh missing o q = elim (Bool-cases (owner == o && provider == q)) [
    | inl this ↦
        let same_owner : owner ≡ o = ground arith in
        let same_provider : provider ≡ q = ground arith in
        rw (← same_owner, ← same_provider)
          (ap total (
              find?-append (policy_of owner provider) s.policies
                (fresh_policy draws settings owner provider s) missing
                (fresh_policy-fits draws settings owner provider s))
            ∙ sym (ap total missing))
    | inr other ↦ ap total (
        find?-append_other (policy_of o q) (fresh_policy draws settings owner provider s) s.policies
          (policy_of_apart owner provider o q (fresh_policy draws settings owner provider s) other
            (fresh_policy-fits draws settings owner provider s)))
  ]

  ensure_policy-IsBalanced : IsBalanced s → IsBalanced (ensured draws settings owner provider s).1
  ensure_policy-IsBalanced h = record { balance = λ o q. go o q }
    where
      go :
          (o q : String)
          → reserved (ensured draws settings owner provider s).1 o q
            ≡ held (ensured draws settings owner provider s).1 o q
      go o q = elim (ensure_policy_cases draws settings owner provider s) [
        | inl (p, found, e) ↦ rw e (h.balance o q)
        | inr (missing, e) ↦ rw e (
            reserved-with_fresh missing o q
            ∙ h.balance o q
            ∙ sym (same_ledger s with_fresh refl refl refl o q))
      ]

-- What the operations rely on when they write: a balanced ledger, the stored policy, and the
-- execution row.
pub record IsReady (task : Task) (execution : RuntimeExecution) (policy : RuntimeControlPolicy)
    (s : Session) : Type 0 where
  pub balanced : IsBalanced s
  pub found : find? (policy_of task.owner_user_id execution.provider) s.policies ≡ some policy
  pub own : IsOwn s task execution

pub ensure_policy-IsReady :
    (draws : Draws) (settings : Settings) (task : Task) (execution : RuntimeExecution) (s : Session)
    → IsOwn s task execution
    → IsBalanced s
    → IsReady task execution
        (ensured draws settings task.owner_user_id execution.provider s).0
        (ensured draws settings task.owner_user_id execution.provider s).1
ensure_policy-IsReady draws settings task execution s own h =
    let (es, ass, ts) = ensure_policy-rest draws settings task.owner_user_id execution.provider s in
    record {
      balanced = ensure_policy-IsBalanced draws settings task.owner_user_id execution.provider s h;
      found = ensure_policy-stored draws settings task.owner_user_id execution.provider s;
      own = record {
        stored = rw es own.stored;
        owned = owner_of-same s _ execution ass ts ∙ own.owned;
      };
    }

-- The Provider's signal goes to its own table.
record_capacity_only :
    (draws : Draws) (owner provider : String) (c : RuntimeCapacity) (s : Session)
    → record_provider_capacity draws owner provider c s
      ≡ record s { capacities = (record_provider_capacity draws owner provider c s).capacities }
unfolding record_provider_capacity
record_capacity_only draws owner provider c s =
    elim (Option-cases (find? (capacity_of owner provider) s.capacities)) [
      | inl (old, e) ↦ rw (e, record_provider_capacity) refl
      | inr e ↦ rw (e, record_provider_capacity) refl
    ]

other_capacities-IsReady :
    (task : Task) (execution : RuntimeExecution) (policy : RuntimeControlPolicy) (s : Session)
    (rows : List RuntimeProviderCapacityRecord)
    → IsReady task execution policy s
    → IsReady task execution policy (record s { capacities = rows })
unfolding reserved held held_by belongs owner_of
other_capacities-IsReady task execution policy s rows r = record {
  balanced = record { balance = r.balanced.balance };
  found = r.found;
  own = record { stored = r.own.stored; owned = r.own.owned };
}

pub record_capacity-IsReady :
    (draws : Draws) (c : RuntimeCapacity) (task : Task) (execution : RuntimeExecution)
    (policy : RuntimeControlPolicy) (s : Session)
    → IsReady task execution policy s
    → IsReady task execution policy
        (record_provider_capacity draws task.owner_user_id execution.provider c s)
record_capacity-IsReady draws c task execution policy s r =
    subst (IsReady task execution policy)
      (sym (record_capacity_only draws task.owner_user_id execution.provider c s))
      (other_capacities-IsReady task execution policy s _ r)

-- Nothing that an execution belongs to changes with its token counts.
pub belongs-admitted :
    (s : Session) (draws : Draws) (n : ℕ) (e : RuntimeExecution) (o q : String)
    → belongs s o q (admitted_execution draws n e) ≡ belongs s o q e
unfolding belongs owner_of admitted_execution
belongs-admitted s draws n e o q = refl

pub belongs-charged :
    (s : Session) (draws : Draws) (n : ℕ) (u : Option RuntimeTokenUsage) (e : RuntimeExecution)
    (o q : String)
    → belongs s o q (charged_execution draws n u e) ≡ belongs s o q e
unfolding belongs owner_of charged_execution
belongs-charged s draws n none e o q = refl
belongs-charged s draws n (some u) e o q = refl

-- A write of the execution row and of the policy whose totals move by the same amount.
pub move-IsBalanced :
    (task : Task) (execution x' : RuntimeExecution) (policy p' : RuntimeControlPolicy) (s : Session)
    → IsReady task execution policy s
    → policy_of task.owner_user_id execution.provider p' ≡ true
    → find? (same_execution x') s.executions ≡ some execution
    → ((o q : String) → belongs s o q x' ≡ belongs s o q execution)
    → p'.tokens_reserved + execution.reserved_tokens ≡ policy.tokens_reserved + x'.reserved_tokens
    → IsBalanced (save_execution x' (save_policy task.owner_user_id execution.provider p' s))
unfolding saved
move-IsBalanced task execution x' policy p' s r kept row same moved =
    saved-IsBalanced task.owner_user_id execution.provider execution x' policy p' s r.found kept row
      same (λ o q. belongs-owned s task execution o q r.own.owned) moved r.balanced
