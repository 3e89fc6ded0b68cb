-- ===== src/Controls/Policy.antt =====
-- Lemmas about `ensure_policy` (src/mutiai/services/runtime_controls.py): the policy row of an owner
-- and a Provider, found or created.
use muti_ai.Prelude.{
  String, ◌≡◌, refl, true, false, Option, none, some, [], ◌∷◌, ◌++◌, ◌⊎◌, inl, inr, arith, All,
  All-append_one, All-find?, find?, find?-append, ◌==◌, ◌&&◌, string_eq,
}
use muti_ai.Models.Control.{RuntimeControlPolicy}
use muti_ai.Database.{Session, Draws}
use muti_ai.Controls.Types.{Settings}
use muti_ai.Controls.Policies.{policy_of, new_policy, ensure_policy}

-- Two different pairs of owner and Provider have no policy in common.
pub policy_of_apart :
    (o p o' p' : String) (q : RuntimeControlPolicy)
    → (o == o' && p == p') ≡ false
    → policy_of o p q ≡ true
    → policy_of o' p' q ≡ false
policy_of_apart o p o' p' q other h = ground arith

module _ (draws : Draws) (settings : Settings) (owner provider : String) (s : Session) where
  abbrev pub fresh_policy : RuntimeControlPolicy
  fresh_policy = new_policy draws settings owner provider

  abbrev pub ensured : RuntimeControlPolicy × Session
  ensured = ensure_policy draws settings owner provider s

  pub ensure_policy_cases :
      ((p : RuntimeControlPolicy) × (find? (policy_of owner provider) s.policies ≡ some p)
        × (ensured ≡ (p, s)))
      ⊎ ((find? (policy_of owner provider) s.policies ≡ none)
          × (ensured ≡ (fresh_policy, record s { policies = s.policies ++ fresh_policy ∷ [] })))
  unfolding ensure_policy
  ensure_policy_cases = go (find? (policy_of owner provider) s.policies) refl
    where
      go :
          (found : Option RuntimeControlPolicy)
          → find? (policy_of owner provider) s.policies ≡ found
          → ((p : RuntimeControlPolicy) × (find? (policy_of owner provider) s.policies ≡ some p)
              × (ensured ≡ (p, s)))
            ⊎ ((find? (policy_of owner provider) s.policies ≡ none)
                × (ensured
                    ≡ (fresh_policy, record s { policies = s.policies ++ fresh_policy ∷ [] })))
      go none e = inr (e, rw (e, ensure_policy))
      go (some p) e = inl (p, e, rw (e, ensure_policy))

  pub fresh_policy-fits : policy_of owner provider fresh_policy ≡ true
  unfolding new_policy
  fresh_policy-fits = ground arith

  -- The returned policy is the stored one.
  pub ensure_policy-stored : find? (policy_of owner provider) ensured.1.policies ≡ some ensured.0
  ensure_policy-stored = elim ensure_policy_cases [
    | inl (p, found, e) ↦ rw e found
    | inr (missing, e) ↦
        rw e (
          find?-append (policy_of owner provider) s.policies fresh_policy missing fresh_policy-fits)
  ]

  pub ensure_policy-All {κ} :
      (P : RuntimeControlPolicy → Type κ)
      → P fresh_policy
      → All P s.policies
      → P ensured.0 × All P ensured.1.policies
  ensure_policy-All P new old = elim ensure_policy_cases [
    | inl (p, found, e) ↦ rw e (All-find? P (policy_of owner provider) s.policies p old found, old)
    | inr (missing, e) ↦ rw e (new, All-append_one P fresh_policy s.policies new old)
  ]

  -- Nothing but the table of policies changes.
  pub ensure_policy-rest :
      (ensured.1.executions ≡ s.executions)
      × (ensured.1.assignments ≡ s.assignments)
      × (ensured.1.tasks ≡ s.tasks)
  ensure_policy-rest = elim ensure_policy_cases [
    | inl (p, found, e) ↦ rw e (refl, refl, refl)
    | inr (missing, e) ↦ rw e (refl, refl, refl)
  ]
