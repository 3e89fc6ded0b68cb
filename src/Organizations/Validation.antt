-- ===== src/Organizations/Validation.antt =====
-- `validate_role_tree` (src/mutiai/domain/organization.py) accepts exactly the trees of roles.
use muti_ai.Prelude.{
  All-both, for_each-All, ℕ, ◌≡◌, ◌↔◌, refl, sym, ◌∙◌, subst, true, none, some-injective, List, [],
  ◌∷◌, ok, err, bind-ok, All-map, All-filter, string_eq, filter, All,
}
use muti_ai.Feasibility.{all_unique}
use muti_ai.Organizations.{
  AgentRoleSpec, OrganizationSpec, OrganizationError, unique_roles, check_reports_to,
  assert_path_reaches_lead, validate_under, validate_roles, validate_role_tree,
}
use muti_ai.Organizations.Walk.{Reaches}
use muti_ai.Organizations.Unique.{
  keys, Stored, apart, unique_roles-ok, unique_roles-accepts, unique-Stored,
}
use muti_ai.Organizations.Tree.{IsTree, check_reports_to-ok, assert_path-ok, validate_under-ok}

apart-nil : (roles : List AgentRoleSpec) → apart [] roles ≡ true
apart-nil [] = refl
apart-nil (r ∷ roles) = apart-nil roles

-- The one lead is stored under its key.
pub lead-Stored :
    (roles : List AgentRoleSpec) (lead : AgentRoleSpec)
    → all_unique (keys roles) ≡ true
    → filter (λ r. r.is_lead) roles ≡ lead ∷ []
    → Stored roles lead
lead-Stored roles lead u one =
    (subst (All (Stored roles)) one (
      All-filter (Stored roles) (Stored roles) (λ r. r.is_lead) roles (λ r _ stored. stored)
        (unique-Stored roles u))).0

validate_roles-ok :
    (roles d : List AgentRoleSpec)
    → validate_roles roles d ≡ ok tt
    → (lead : AgentRoleSpec) × (filter (λ r. r.is_lead) roles ≡ lead ∷ [])
      × (validate_under roles d lead.role_key ≡ ok tt)
unfolding validate_roles
validate_roles-ok roles d h = go (filter (λ r. r.is_lead) roles) refl h
  where
    go :
        (leads : List AgentRoleSpec)
        → filter (λ r. r.is_lead) roles ≡ leads
        → (elim leads [
          | [] ↦ err OrganizationError.not_one_lead
          | lead ∷ [] ↦ validate_under roles d lead.role_key
          | _ ∷ (_ ∷ _) ↦ err OrganizationError.not_one_lead
        ])
          ≡ ok tt
        → (lead : AgentRoleSpec) × (filter (λ r. r.is_lead) roles ≡ lead ∷ [])
          × (validate_under roles d lead.role_key ≡ ok tt)
    go [] e h = cc
    go (lead ∷ []) e h = (lead, e, h)
    go (_ ∷ (_ ∷ _)) e h = cc

validate_role_tree-IsTree_to :
    (spec : OrganizationSpec) → validate_role_tree spec ≡ ok tt → IsTree spec.roles
unfolding validate_role_tree
validate_role_tree-IsTree_to spec h =
    let (d, made, checked) =
      bind-ok (unique_roles spec.roles []) (validate_roles spec.roles) tt h in
    let (same, u, off) = unique_roles-ok spec.roles [] d made in
    let (lead, one, under) =
      validate_roles-ok spec.roles spec.roles
        (subst (λ x. validate_roles spec.roles x ≡ ok tt) same checked) in
    let (lead', found, top, reach) = validate_under-ok spec.roles lead.role_key under in
    let this : lead' ≡ lead =
      some-injective lead' lead (sym found ∙ lead-Stored spec.roles lead u one) in
    record {
      distinct = u;
      lead = lead;
      one_lead = one;
      top = subst (λ x. x.reports_to ≡ none) this top;
      under = reach;
    }

validate_role_tree-IsTree_from :
    (spec : OrganizationSpec) → IsTree spec.roles → validate_role_tree spec ≡ ok tt
unfolding validate_role_tree validate_roles validate_under
validate_role_tree-IsTree_from spec t =
    let both =
      All-both (Stored spec.roles) (λ r. (n : ℕ) × Reaches spec.roles t.lead.role_key n r)
        spec.roles (unique-Stored spec.roles t.distinct) t.under in
    let made = unique_roles-accepts spec.roles [] t.distinct (apart-nil spec.roles) in
    let checks = (for_each-All (check_reports_to spec.roles t.lead.role_key) spec.roles).1 (
      All-map _ _ spec.roles
        (λ r (stored, (n, reach)). check_reports_to-ok spec.roles t.lead.role_key r n reach stored)
        both) in
    let walks = (for_each-All (assert_path_reaches_lead spec.roles t.lead.role_key) spec.roles).1 (
      All-map _ _ spec.roles
        (λ r (stored, (n, reach)). assert_path-ok spec.roles t.lead.role_key r n reach stored)
        both) in
    let found = lead-Stored spec.roles t.lead t.distinct t.one_lead in
    rw made (
      rw (t.one_lead, validate_roles) (rw (found, validate_under) (rw (t.top, checks, walks) refl)))

-- A definition of an organization is accepted exactly if its roles are a tree: distinct keys, one
-- lead that reports to nobody, and every role comes to the lead by going up.
pub validate_role_tree-IsTree :
    (spec : OrganizationSpec) → (validate_role_tree spec ≡ ok tt) ↔ IsTree spec.roles
validate_role_tree-IsTree spec =
    (validate_role_tree-IsTree_to spec, validate_role_tree-IsTree_from spec)
