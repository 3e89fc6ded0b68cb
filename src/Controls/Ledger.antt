-- ===== src/Controls/Ledger.antt =====
-- The ledger of reservations (src/mutiai/services/runtime_controls.py): what a policy holds as
-- reserved is what its executions hold.
use muti_ai.Prelude.{
  ℕ, ◌+◌, String, ◌≡◌, refl, true, false, Option, none, some, arith, inl, inr, Bool-cases, ap, ◌∙◌,
  set_first, ◌==◌, ◌&&◌, if◌then◌else◌, find?, sum, sum-set_first, find?-set_first,
  find?-set_first_other, string_eq,
}
use muti_ai.Models.Task.{RuntimeExecution}
use muti_ai.Models.Control.{RuntimeControlPolicy}
use muti_ai.Database.{Session}
use muti_ai.Controls.Policies.{policy_of}
use muti_ai.Controls.Activity.{belongs, owner_of}
use muti_ai.Controls.Saving.{same_execution, save_execution, save_policy}
use muti_ai.Controls.Policy.{policy_of_apart}

-- What one execution holds for an owner and a Provider.
unfoldable pub held_by : Session → (owner provider : String) → RuntimeExecution → ℕ
held_by s owner provider e = if belongs s owner provider e then e.reserved_tokens else 0

unfoldable pub held : Session → (owner provider : String) → ℕ
unfolding held_by
held s owner provider = sum (held_by s owner provider) s.executions

abbrev pub total : Option RuntimeControlPolicy → ℕ
total none = 0
total (some p) = p.tokens_reserved

unfoldable pub reserved : Session → (owner provider : String) → ℕ
reserved s owner provider = total (find? (policy_of owner provider) s.policies)

-- Every policy's reserved total is the sum of the reservations of its executions.
pub record IsBalanced (s : Session) : Type 0 where
  pub balance : (owner provider : String) → reserved s owner provider ≡ held s owner provider

-- Replacing an execution row by `x'` and the policy row by `p'` moves both sides of the ledger of one
-- owner and Provider, and no other ledger.
module _ (owner provider : String) (x x' : RuntimeExecution) (p p' : RuntimeControlPolicy)
    (s : Session) (stored : find? (policy_of owner provider) s.policies ≡ some p)
    (kept : policy_of owner provider p' ≡ true)
    (row : find? (same_execution x') s.executions ≡ some x)
    (same : (o q : String) → belongs s o q x' ≡ belongs s o q x)
    (owned : (o q : String) → belongs s o q x ≡ (owner == o && provider == q)) where
  unfoldable pub saved : Session
  saved = save_execution x' (save_policy owner provider p' s)

  held_by-owned :
      (o q : String) (e : RuntimeExecution)
      → belongs s o q e ≡ (owner == o && provider == q)
      → held_by s o q e ≡ (if owner == o && provider == q then e.reserved_tokens else 0)
  unfolding held_by
  held_by-owned o q e h = rw h

  held-saved-sum :
      (o q : String)
      → held saved o q ≡ sum (held_by s o q) (set_first (same_execution x') x' s.executions)
  unfolding saved held held_by belongs owner_of
  held-saved-sum o q = refl

  held-saved :
      (o q : String)
      → held saved o q + (if owner == o && provider == q then x.reserved_tokens else 0)
        ≡ held s o q + (if owner == o && provider == q then x'.reserved_tokens else 0)
  unfolding held
  held-saved o q = omega (
    arith,
    held-saved-sum o q,
    sum-set_first (held_by s o q) (same_execution x') x' s.executions x row,
    held_by-owned o q x (owned o q),
    held_by-owned o q x' (same o q ∙ owned o q),
  )

  reserved-saved_this :
      (o q : String)
      → (owner == o && provider == q) ≡ true
      → (reserved saved o q ≡ p'.tokens_reserved) × (reserved s o q ≡ p.tokens_reserved)
  unfolding saved reserved
  reserved-saved_this o q this =
      let same_owner : owner ≡ o = ground arith in
      let same_provider : provider ≡ q = ground arith in
      rw (← same_owner, ← same_provider)
        (
          ap total (find?-set_first (policy_of owner provider) p' s.policies p stored kept),
          ap total stored,
        )

  reserved-saved_other :
      (o q : String) → (owner == o && provider == q) ≡ false → reserved saved o q ≡ reserved s o q
  unfolding saved reserved
  reserved-saved_other o q other = ap total (
      find?-set_first_other (policy_of owner provider) (policy_of o q) p' s.policies
        (λ r. policy_of_apart owner provider o q r other)
        (policy_of_apart owner provider o q p' other kept))

  -- The ledger stays balanced if the policy's total moves by as much as the reservation.
  pub saved-IsBalanced :
      p'.tokens_reserved + x.reserved_tokens ≡ p.tokens_reserved + x'.reserved_tokens
      → IsBalanced s
      → IsBalanced saved
  saved-IsBalanced moved h = record { balance = λ o q. go o q }
    where
      go : (o q : String) → reserved saved o q ≡ held saved o q
      go o q = elim (Bool-cases (owner == o && provider == q)) [
        | inl this ↦
            let (after, before) = reserved-saved_this o q this in
            let sums : held saved o q + x.reserved_tokens ≡ held s o q + x'.reserved_tokens =
              rw this at (held-saved o q) in
            omega (arith, h.balance o q)
        | inr other ↦
            let sums : held saved o q + 0 ≡ held s o q + 0 = rw other at (held-saved o q) in
            omega (arith, h.balance o q, reserved-saved_other o q other)
      ]
