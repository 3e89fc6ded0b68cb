-- ===== src/Organizations.antt =====
-- src/mutiai/domain/organization.py: the definition of an organization, and the validation of its
-- tree of roles.
pub mod Walk
pub mod Unique
pub mod Tree
pub mod Validation
pub mod Ends
pub mod Samples
mod Examples
use muti_ai.Prelude.{
  for_each, ℕ, zero, suc, String, Bool, true, false, Option, none, some, List, [], ◌∷◌, ◌++◌,
  Result, ok, err, ◌>>=◌, ◌>>◌, if◌then◌else◌, ◌==◌, string_eq, is_some, find?, filter, elem,
  length,
}
use muti_ai.Feasibility.{WorkloadRequirements}

pub record AgentRoleSpec : Type 0 where
  pub role_key : String
  pub name : String
  pub responsibility : String
  pub is_lead : Bool
  pub reports_to : Option String
  pub runtime_binding_key : String
  pub capability_requirements : WorkloadRequirements

pub record OrganizationSpec : Type 0 where
  pub schema_version : String
  pub name : String
  pub description : String
  pub roles : List AgentRoleSpec

-- The errors that the code raises, then a missing key of a dict and a walk that ran out of fuel.
pub data OrganizationError : Type 0 where
  duplicate_role_key : String → OrganizationError
  not_one_lead lead_reports : OrganizationError
  no_reports_to : String → OrganizationError
  unknown_role : (role_key reports_to : String) → OrganizationError
  reports_to_itself : String → OrganizationError
  cycle : String → OrganizationError
  not_connected : String → OrganizationError
  key_error : String → OrganizationError
  out_of_fuel : OrganizationError

-- `role_by_key.get(key)`; the dict is the list of its roles, each under its own key.
abbrev pub role_of : String → List AgentRoleSpec → Option AgentRoleSpec
role_of key role_by_key = find? (λ r. r.role_key == key) role_by_key

-- `_unique_roles`: the loop, with the dict that it has built so far.
unfoldable pub unique_roles :
    List AgentRoleSpec
    → (role_by_key : List AgentRoleSpec) → Result OrganizationError (List AgentRoleSpec)
unique_roles [] role_by_key = ok role_by_key
unique_roles (role ∷ roles) role_by_key =
    let rest = unique_roles roles (role_by_key ++ role ∷ []) in
    if is_some (role_of role.role_key role_by_key)
    then err (OrganizationError.duplicate_role_key role.role_key)
    else rest

module _ (role_by_key : List AgentRoleSpec) (lead_key : String) where
  unfoldable pub check_reports_to : AgentRoleSpec → Result OrganizationError (Unit {0})
  check_reports_to role = if role.role_key == lead_key then ok tt else elim role.reports_to [
    | none ↦ err (OrganizationError.no_reports_to role.role_key)
    | some parent_key ↦
        if is_some (role_of parent_key role_by_key)
        then (if parent_key == role.role_key
            then err (OrganizationError.reports_to_itself role.role_key)
            else ok tt)
        else err (OrganizationError.unknown_role role.role_key parent_key)
  ]

  -- The `while` of `_assert_path_reaches_lead`; `start` is the role that it was called for.
  unfoldable pub walk :
      (fuel : ℕ) (start : AgentRoleSpec) (visited : List String) (current : AgentRoleSpec)
      → Result OrganizationError (Unit {0})
  walk zero start visited current = err OrganizationError.out_of_fuel
  walk (suc fuel) start visited current =
      if current.role_key == lead_key
      then ok tt
      else if elem current.role_key visited
      then err (OrganizationError.cycle current.role_key)
      else elim current.reports_to [
        | none ↦ err (OrganizationError.not_connected start.role_key)
        | some parent_key ↦ elim (role_of parent_key role_by_key) [
          | none ↦ err (OrganizationError.not_connected start.role_key)
          | some parent ↦ walk fuel start (current.role_key ∷ visited) parent
        ]
      ]

  -- `_assert_path_reaches_lead`
  unfoldable pub assert_path_reaches_lead : AgentRoleSpec → Result OrganizationError (Unit {0})
  unfolding walk
  assert_path_reaches_lead role = walk (suc (length role_by_key)) role [] role

-- `validate_role_tree` once the one lead is known.
unfoldable pub validate_under :
    List AgentRoleSpec
    → (role_by_key : List AgentRoleSpec) (lead_key : String) → Result OrganizationError (Unit {0})
validate_under roles role_by_key lead_key = elim (role_of lead_key role_by_key) [
  | none ↦ err (OrganizationError.key_error lead_key)
  | some lead ↦
      if is_some lead.reports_to
      then err OrganizationError.lead_reports
      else for_each (check_reports_to role_by_key lead_key) roles
        >> for_each (assert_path_reaches_lead role_by_key lead_key) roles
]

unfoldable pub validate_roles :
    List AgentRoleSpec → (role_by_key : List AgentRoleSpec) → Result OrganizationError (Unit {0})
validate_roles roles role_by_key = elim (filter (λ r. r.is_lead) roles) [
  | [] ↦ err OrganizationError.not_one_lead
  | lead ∷ [] ↦ validate_under roles role_by_key lead.role_key
  | _ ∷ (_ ∷ _) ↦ err OrganizationError.not_one_lead
]

unfoldable pub validate_role_tree : OrganizationSpec → Result OrganizationError (Unit {0})
validate_role_tree spec = unique_roles spec.roles [] >>= validate_roles spec.roles
