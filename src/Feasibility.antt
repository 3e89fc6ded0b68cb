-- ===== src/Feasibility.antt =====
-- src/mutiai/domain/feasibility.py: what a workload requires of a Runtime, what a Runtime declares,
-- and the findings of a feasibility check. The children model src/mutiai/services/feasibility.py.
pub mod Findings
pub mod Sections
pub mod Profile
pub mod Merge
pub mod Outcome
pub mod Inventory
pub mod Satisfies
pub mod Meaning
pub mod Validation
pub mod Strictness
pub mod Validity
mod Examples
use muti_ai.Prelude.{
  ℕ, String, Bool, true, false, not, ◌&&◌, ◌||◌, Option, none, some, List, [], ◌∷◌, Eq, map, elem,
  string_eq, is_none, is_some,
}
use muti_ai.Models.Json.{Json}

-- The values of `OperatingSystemFamily`; a requirement names one of the first three.
pub data OsFamily : Type 0 where
  linux windows macos unknown : OsFamily

pub data CapacityClass : Type 0 where
  light standard heavy unknown : CapacityClass

pub data RuntimeSecurityMode : Type 0 where
  demo_full_access workspace_restricted : RuntimeSecurityMode

unfoldable pub OsFamily-discrete : Discrete OsFamily
OsFamily-discrete = hlevel

unfoldable pub CapacityClass-discrete : Discrete CapacityClass
CapacityClass-discrete = hlevel

unfoldable pub RuntimeSecurityMode-discrete : Discrete RuntimeSecurityMode
RuntimeSecurityMode-discrete = hlevel

instance abbrev pub os_family_eq : Eq OsFamily
os_family_eq = record { discrete = OsFamily-discrete }

instance abbrev pub capacity_class_eq : Eq CapacityClass
capacity_class_eq = record { discrete = CapacityClass-discrete }

instance abbrev pub security_mode_eq : Eq RuntimeSecurityMode
security_mode_eq = record { discrete = RuntimeSecurityMode-discrete }

pub record WorkloadRequirements : Type 0 where
  pub schema_version : String
  pub os_families : List OsFamily
  pub requires_gui : Bool
  pub requires_gpu : Bool
  pub min_gpu_memory_mb : Option ℕ
  pub min_cpu_capacity : CapacityClass
  pub min_memory_mb : Option ℕ
  pub required_tools : List String
  pub requires_network : Bool
  pub required_external_services : List String
  pub required_hardware : List String
  pub required_proprietary_software : List String
  pub input_media_types : List String
  pub output_media_types : List String
  pub estimated_duration_seconds : Option ℕ
  pub estimated_input_size_bytes : Option ℕ
  pub resource_intensive : Bool

pub record RuntimeCapabilityProfileSpec : Type 0 where
  pub os_family : OsFamily
  pub os_version : Option String
  pub architecture : Option String
  pub headless : Option Bool
  pub cpu_capacity_class : CapacityClass
  pub memory_mb : Option ℕ
  pub gpu_available : Option Bool
  pub gpu_kind : Option String
  pub gpu_memory_mb : Option ℕ
  pub installed_tools : List String
  pub tool_inventory_complete : Bool
  pub network_access : Option Bool
  pub external_services : List String
  pub external_service_inventory_complete : Bool
  pub attached_hardware : List String
  pub hardware_inventory_complete : Bool
  pub proprietary_software : List String
  pub proprietary_software_inventory_complete : Bool
  pub supported_input_media_types : List String
  pub supported_output_media_types : List String
  pub media_inventory_complete : Bool
  pub max_duration_seconds : Option ℕ
  pub max_input_size_bytes : Option ℕ

-- The reason codes that the service writes, `code_text` their texts.
pub data ReasonCode : Type 0 where
  workload_requirement_conflict runtime_binding_unavailable capability_profile_untrusted :
      ReasonCode
  os_capability_unknown os_capability_mismatch : ReasonCode
  gui_capability_unknown gui_unavailable : ReasonCode
  gpu_capability_unknown gpu_unavailable gpu_memory_unknown gpu_memory_insufficient : ReasonCode
  cpu_capacity_unknown cpu_capacity_insufficient : ReasonCode
  memory_capacity_unknown memory_capacity_insufficient : ReasonCode
  required_tool_unavailable tool_inventory_unknown : ReasonCode
  network_capability_unknown network_unavailable : ReasonCode
  required_service_unavailable service_inventory_unknown : ReasonCode
  required_hardware_unavailable hardware_inventory_unknown : ReasonCode
  proprietary_software_unavailable proprietary_software_inventory_unknown : ReasonCode
  input_media_unsupported output_media_unsupported media_capability_unknown : ReasonCode
  duration_limit_unknown duration_limit_exceeded : ReasonCode
  input_size_limit_unknown input_size_limit_exceeded : ReasonCode

pub record FeasibilityFinding : Type 0 where
  pub reason_code : ReasonCode
  pub role_key : String
  pub binding_key : String
  pub capability : String
  pub required : Json
  pub actual : Json
  pub alternative_codes : List String

-- `len(set(values)) == len(values)`: no value stands twice.
unfoldable pub all_unique : List String → Bool
all_unique [] = true
all_unique (v ∷ vs) = not (elem v vs) && all_unique vs

-- The same for the names of families, which are in lower case, so that `casefold` keeps them.
unfoldable pub families_unique : List OsFamily → Bool
families_unique [] = true
families_unique (f ∷ fs) = not (elem f fs) && families_unique fs

-- `gpu_available is False`
abbrev pub gpu_denied : Option Bool → Bool
gpu_denied (some false) = true
gpu_denied _ = false

-- The validators of the two models. `casefold` is Python's `str.casefold`.
module _ (casefold : String → String) where
  unfoldable pub unique_items : List String → Bool
  unfolding all_unique
  unique_items items = all_unique (map casefold items)

  unfoldable pub is_valid_workload : WorkloadRequirements → Bool
  unfolding families_unique
  is_valid_workload r =
      families_unique r.os_families
      && (unique_items r.required_tools
          && (unique_items r.required_external_services
              && (unique_items r.required_hardware
                  && (unique_items r.required_proprietary_software
                      && (unique_items r.input_media_types
                          && (unique_items r.output_media_types
                              && not (is_some r.min_gpu_memory_mb && not r.requires_gpu)))))))

  unfoldable pub is_valid_profile : RuntimeCapabilityProfileSpec → Bool
  is_valid_profile p =
      unique_items p.installed_tools
      && (unique_items p.external_services
          && (unique_items p.attached_hardware
              && (unique_items p.proprietary_software
                  && (unique_items p.supported_input_media_types
                      && (unique_items p.supported_output_media_types
                          && not (
                              gpu_denied p.gpu_available
                              && (is_some p.gpu_kind || is_some p.gpu_memory_mb)))))))
