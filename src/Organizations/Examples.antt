-- ===== src/Organizations/Examples.antt =====
-- A run of `validate_role_tree` (src/mutiai/domain/organization.py) on a tree of three roles.
use muti_ai.Prelude.{
  for_each, true, false, ◌≡◌, ◌↔◌, refl, none, some, [], ◌∷◌, ok, err, String-discrete,
}
use muti_ai.Organizations.{
  OrganizationSpec, OrganizationError, validate_role_tree, unique_roles, validate_roles,
  validate_under, check_reports_to, assert_path_reaches_lead, walk,
}
use muti_ai.Organizations.Samples.{role, team}
use muti_ai.Organizations.Walk.{internal}
use muti_ai.Organizations.Tree.{IsTree}
use muti_ai.Organizations.Validation.{validate_role_tree-IsTree}
use muti_ai.Organizations.Ends.{internal-validate_role_tree}

validate_role_tree-IsTree_example : (validate_role_tree team ≡ ok tt) ↔ IsTree team.roles
validate_role_tree-IsTree_example = validate_role_tree-IsTree team

internal-validate_role_tree_example : internal (validate_role_tree team) ≡ false
internal-validate_role_tree_example = internal-validate_role_tree team

-- Two roles that report to each other.
abbrev loop : OrganizationSpec
loop = record team {
  roles = role "lead" true none ∷ role "a" false (some "b") ∷ role "b" false (some "a") ∷ [];
}

team_accepted : validate_role_tree team ≡ ok tt
unfolding validate_role_tree unique_roles validate_roles validate_under for_each check_reports_to
    assert_path_reaches_lead walk String-discrete
team_accepted = refl

loop_refused : validate_role_tree loop ≡ err (OrganizationError.cycle "a")
unfolding validate_role_tree unique_roles validate_roles validate_under for_each check_reports_to
    assert_path_reaches_lead walk String-discrete
loop_refused = refl
