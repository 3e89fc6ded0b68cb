-- ===== src/Feasibility/Findings.antt =====
-- Findings of `_validate_profile`, and the checks of inventories and limits
-- (src/mutiai/services/feasibility.py).
use muti_ai.Prelude.{
  ℕ, String, Bool, not, Option, none, some, List, [], ◌∷◌, if◌then◌else◌, leb, string_eq, map, elem,
  filter,
}
use muti_ai.Models.Json.{Json, strs}
use muti_ai.Feasibility.{
  OsFamily, os_family_eq, CapacityClass, capacity_class_eq, security_mode_eq, WorkloadRequirements,
  ReasonCode, FeasibilityFinding,
}

-- `_RoleWorkload`
pub record RoleWorkload : Type 0 where
  pub role_key : String
  pub binding_key : String
  pub requirements : WorkloadRequirements
  pub requirement_conflict : Bool

-- `_CAPACITY_RANK`
abbrev pub capacity_rank : CapacityClass → ℕ
capacity_rank CapacityClass.unknown = 0
capacity_rank CapacityClass.light = 1
capacity_rank CapacityClass.standard = 2
capacity_rank CapacityClass.heavy = 3

abbrev pub capacity_text : CapacityClass → String
capacity_text CapacityClass.unknown = "unknown"
capacity_text CapacityClass.light = "light"
capacity_text CapacityClass.standard = "standard"
capacity_text CapacityClass.heavy = "heavy"

abbrev pub os_text : OsFamily → String
os_text OsFamily.linux = "linux"
os_text OsFamily.windows = "windows"
os_text OsFamily.macos = "macos"
os_text OsFamily.unknown = "unknown"

unfoldable pub finding :
    ReasonCode
    → RoleWorkload
    → (capability : String) (required actual : Json) (alternatives : List String)
    → FeasibilityFinding
finding code workload capability required actual alternatives = record {
  reason_code = code;
  role_key = workload.role_key;
  binding_key = workload.binding_key;
  capability = capability;
  required = required;
  actual = actual;
  alternative_codes = alternatives;
}

-- `_unknown`
unfoldable pub unknown_finding :
    ReasonCode → RoleWorkload → (capability : String) (required : Json) → FeasibilityFinding
unfolding finding
unknown_finding code workload capability required =
    finding code workload capability required Json.null
      ("declare_capabilities" ∷ "use_capable_binding" ∷ [])

module _ (casefold : String → String) where
  -- `[item for item in required if item.casefold() not in available_by_key]`
  unfoldable pub missing_items : (required available : List String) → List String
  missing_items required available =
      filter (λ item. not (elem (casefold item) (map casefold available))) required

  unfoldable pub validate_inventory :
      RoleWorkload
      → (capability : String) (required available : List String) (complete : Bool)
        (blocked_code unknown_code : ReasonCode) (alternatives : List String)
      → List FeasibilityFinding
  unfolding missing_items finding unknown_finding
  validate_inventory workload capability required available complete blocked_code unknown_code
        alternatives =
      elim (missing_items required available) [
        | [] ↦ []
        | m ∷ ms ↦
            if complete
            then finding blocked_code workload capability (strs (m ∷ ms)) (strs available)
                alternatives
              ∷ []
            else unknown_finding unknown_code workload capability (strs (m ∷ ms)) ∷ []
      ]

unfoldable pub validate_limit :
    RoleWorkload
    → (capability : String) (required : ℕ) (actual : Option ℕ)
      (unknown_code blocked_code : ReasonCode)
    → List FeasibilityFinding
unfolding finding unknown_finding
validate_limit workload capability required none unknown_code blocked_code =
    unknown_finding unknown_code workload capability (Json.num required) ∷ []
validate_limit workload capability required (some actual) unknown_code blocked_code =
    if leb required actual
    then []
    else finding blocked_code workload capability (Json.num required) (Json.num actual)
        ("reduce_workload" ∷ "use_capable_binding" ∷ [])
      ∷ []
