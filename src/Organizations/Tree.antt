-- ===== src/Organizations/Tree.antt =====
-- Trees of roles, and the loops of `validate_role_tree` (src/mutiai/domain/organization.py) on them.
use muti_ai.Prelude.{
  for_each-All, for_each, ℕ, zero, suc, String, ◌≡◌, refl, sym, ap, ◌∙◌, subst, true, false, none,
  some, some-injective, List, [], ◌∷◌, ok, then-ok, All-map, arith, ◌==◌, string_eq, filter, length,
  All, Bool-cases, Option-cases, inl, inr,
}
use muti_ai.Feasibility.{all_unique}
use muti_ai.Organizations.{
  AgentRoleSpec, role_of, check_reports_to, assert_path_reaches_lead, validate_under,
}
use muti_ai.Organizations.Walk.{unvisited-all, Reaches, Reaches-unique, walk-Reaches, Reaches-walk}
use muti_ai.Organizations.Unique.{keys, Stored}

-- A tree of roles: the keys are distinct, one role is the lead and reports to nobody, and every role
-- comes to the lead by going up.
pub record IsTree (roles : List AgentRoleSpec) : Type 0 where
  pub distinct : all_unique (keys roles) ≡ true
  pub lead : AgentRoleSpec
  pub one_lead : filter (λ r. r.is_lead) roles ≡ lead ∷ []
  pub top : lead.reports_to ≡ none
  pub under : All (λ r. (n : ℕ) × Reaches roles lead.role_key n r) roles

pub check_reports_to-ok :
    (roles : List AgentRoleSpec) (lead_key : String) (r : AgentRoleSpec) (n : ℕ)
    → Reaches roles lead_key n r
    → Stored roles r
    → check_reports_to roles lead_key r ≡ ok tt
unfolding check_reports_to
check_reports_to-ok roles lead_key r zero h stored =
    let top : (r.role_key == lead_key) ≡ true = ground arith in rw top refl
check_reports_to-ok roles lead_key r (suc n) (below, k, up, p, found, rest) stored =
    let under : (r.role_key == lead_key) ≡ false = ground arith in
    let other : (k == r.role_key) ≡ false = elim (Bool-cases (k == r.role_key)) [
      | inl same ↦
          let key : k ≡ r.role_key = ground arith in
          let this : p ≡ r =
            some-injective p r (sym found ∙ ap (λ x. role_of x roles) key ∙ stored) in
          absurd (
            omega (
              arith,
              Reaches-unique roles lead_key n (suc n) r (subst (Reaches roles lead_key n) this rest)
                  (below, k, up, p, found, rest),
            ))
      | inr o ↦ o
    ] in
    rw (under, up, found, other) refl

pub assert_path-ok :
    (roles : List AgentRoleSpec) (lead_key : String) (r : AgentRoleSpec) (n : ℕ)
    → Reaches roles lead_key n r
    → Stored roles r
    → assert_path_reaches_lead roles lead_key r ≡ ok tt
unfolding assert_path_reaches_lead
assert_path-ok roles lead_key r n h stored =
    Reaches-walk roles lead_key n (suc (length roles)) r [] r h stored tt
      (omega (arith, unvisited-all roles))

pub validate_under-ok :
    (roles : List AgentRoleSpec) (lead_key : String)
    → validate_under roles roles lead_key ≡ ok tt
    → (lead : AgentRoleSpec) × (role_of lead_key roles ≡ some lead)
      × (lead.reports_to ≡ none)
      × All (λ r. (n : ℕ) × Reaches roles lead_key n r) roles
unfolding validate_under assert_path_reaches_lead
validate_under-ok roles lead_key h = elim (Option-cases (role_of lead_key roles)) [
  | inr missing ↦ absurd (ground arith)
  | inl (lead, found) ↦ elim (Option-cases lead.reports_to) [
    | inl (k, up) ↦ absurd (ground arith)
    | inr top ↦
        let (_, walks) =
          then-ok (for_each (check_reports_to roles lead_key) roles)
            (for_each (assert_path_reaches_lead roles lead_key) roles) tt
            (rw top at (rw (found, validate_under) at h)) in
        (
          lead,
          found,
          top,
          All-map (λ r. assert_path_reaches_lead roles lead_key r ≡ ok tt)
              (λ r. (n : ℕ) × Reaches roles lead_key n r) roles
              (λ r e. walk-Reaches roles lead_key (suc (length roles)) r [] r e)
              ((for_each-All (assert_path_reaches_lead roles lead_key) roles).0 walks),
        )
  ]
]
