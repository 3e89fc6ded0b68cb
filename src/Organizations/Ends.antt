-- ===== src/Organizations/Ends.antt =====
-- `validate_role_tree` (src/mutiai/domain/organization.py) comes to an answer on every definition.
use muti_ai.Prelude.{
  for_each, suc, String, ◌≡◌, refl, sym, subst, true, false, List, [], ◌∷◌, ◌++◌, Result, ok, err,
  ◌>>=◌, ◌>>◌, arith, string_eq, is_some, filter, length, All, All-map, Bool-cases, Option-cases,
  inl, inr,
}
use muti_ai.Feasibility.{all_unique}
use muti_ai.Organizations.{
  AgentRoleSpec, OrganizationSpec, OrganizationError, role_of, unique_roles, check_reports_to,
  assert_path_reaches_lead, validate_under, validate_roles, validate_role_tree,
}
use muti_ai.Organizations.Walk.{internal, unvisited-all, internal-walk}
use muti_ai.Organizations.Unique.{keys, Stored, unique_roles-ok, unique-Stored}
use muti_ai.Organizations.Validation.{lead-Stored}

internal-unique_roles :
    (roles before : List AgentRoleSpec) → internal (unique_roles roles before) ≡ false
unfolding unique_roles
internal-unique_roles [] before = refl
internal-unique_roles (r ∷ roles) before = elim (Bool-cases (is_some (role_of r.role_key before))) [
  | inl twice ↦ rw twice refl
  | inr fresh ↦ rw fresh (internal-unique_roles roles (before ++ r ∷ []))
]

internal-then :
    (m k : Result OrganizationError (Unit {0}))
    → internal m ≡ false
    → internal k ≡ false
    → internal (m >> k) ≡ false
internal-then (ok tt) k h h' = h'
internal-then (err e) k h h' = h

internal-for_each :
    (body : AgentRoleSpec → Result OrganizationError (Unit {0})) (roles : List AgentRoleSpec)
    → All (λ r. internal (body r) ≡ false) roles
    → internal (for_each body roles) ≡ false
unfolding for_each
internal-for_each body [] h = refl
internal-for_each body (r ∷ roles) h =
    internal-then (body r) (for_each body roles) h.0 (internal-for_each body roles h.1)

internal-check :
    (roles : List AgentRoleSpec) (lead_key : String) (r : AgentRoleSpec)
    → internal (check_reports_to roles lead_key r) ≡ false
unfolding check_reports_to
internal-check roles lead_key r = ground arith

internal-walks :
    (roles : List AgentRoleSpec) (lead_key : String) (xs : List AgentRoleSpec)
    → All (Stored roles) xs
    → All (λ r. internal (assert_path_reaches_lead roles lead_key r) ≡ false) xs
unfolding assert_path_reaches_lead
internal-walks roles lead_key xs h =
    All-map (Stored roles) (λ r. internal (assert_path_reaches_lead roles lead_key r) ≡ false) xs
      (λ r stored.
        internal-walk roles lead_key (suc (length roles)) r [] r stored
          (omega (arith, unvisited-all roles)))
      h

internal-checks :
    (roles : List AgentRoleSpec) (lead_key : String) (xs : List AgentRoleSpec)
    → All (λ r. internal (check_reports_to roles lead_key r) ≡ false) xs
internal-checks roles lead_key [] = tt
internal-checks roles lead_key (x ∷ xs) =
    (internal-check roles lead_key x, internal-checks roles lead_key xs)

internal-validate_under :
    (roles : List AgentRoleSpec) (lead : AgentRoleSpec)
    → All (Stored roles) roles
    → Stored roles lead
    → internal (validate_under roles roles lead.role_key) ≡ false
unfolding validate_under
internal-validate_under roles lead all_stored stored = elim (Option-cases lead.reports_to) [
  | inl (k, up) ↦ rw (stored, validate_under) (rw up refl)
  | inr top ↦
      rw (stored, validate_under)
        (rw top (
          internal-then (for_each (check_reports_to roles lead.role_key) roles)
            (for_each (assert_path_reaches_lead roles lead.role_key) roles)
            (internal-for_each (check_reports_to roles lead.role_key) roles
              (internal-checks roles lead.role_key roles))
            (internal-for_each (assert_path_reaches_lead roles lead.role_key) roles
              (internal-walks roles lead.role_key roles all_stored))))
]

internal-validate_roles :
    (roles : List AgentRoleSpec)
    → all_unique (keys roles) ≡ true
    → internal (validate_roles roles roles) ≡ false
unfolding validate_roles
internal-validate_roles roles u = go (filter (λ r. r.is_lead) roles) refl
  where
    go :
        (leads : List AgentRoleSpec)
        → filter (λ r. r.is_lead) roles ≡ leads
        → internal (elim leads [
          | [] ↦ err OrganizationError.not_one_lead
          | lead ∷ [] ↦ validate_under roles roles lead.role_key
          | _ ∷ (_ ∷ _) ↦ err OrganizationError.not_one_lead
        ])
          ≡ false
    go [] e = refl
    go (lead ∷ []) e =
        internal-validate_under roles lead (unique-Stored roles u) (lead-Stored roles lead u e)
    go (_ ∷ (_ ∷ _)) e = refl

-- The validation always comes to an answer of the code: the fuel of the walks is enough, and no key
-- is looked up that the dict does not have.
pub internal-validate_role_tree :
    (spec : OrganizationSpec) → internal (validate_role_tree spec) ≡ false
unfolding validate_role_tree
internal-validate_role_tree spec =
    go (unique_roles spec.roles []) refl (internal-unique_roles spec.roles [])
  where
    go :
        (made : Result OrganizationError (List AgentRoleSpec))
        → unique_roles spec.roles [] ≡ made
        → internal made ≡ false
        → internal (made >>= validate_roles spec.roles) ≡ false
    go (ok d) e h =
        let (same, u, off) = unique_roles-ok spec.roles [] d e in
        subst (λ x. internal (validate_roles spec.roles x) ≡ false) (sym same)
          (internal-validate_roles spec.roles u)
    go (err x) e h = h
