-- ===== src/Feasibility/Examples.antt =====
-- Runs of the feasibility checks (src/mutiai/services/feasibility.py) on one Runtime profile. Up to
-- case is taken as it is: the texts are in lower case.
use muti_ai.Prelude.{String, ◌≡◌, ◌↔◌, ◌≢◌, refl, true, false, none, some, [], ◌∷◌, String-discrete}
use muti_ai.Models.Json.{Json}
use muti_ai.Feasibility.{
  OsFamily, OsFamily-discrete, CapacityClass, CapacityClass-discrete, RuntimeSecurityMode,
  WorkloadRequirements, RuntimeCapabilityProfileSpec, ReasonCode, FeasibilityFinding,
}
use muti_ai.Feasibility.Findings.{
  RoleWorkload, unknown_finding, validate_inventory, missing_items, validate_limit,
}
use muti_ai.Feasibility.Profile.{
  validate_profile, tool_findings, duration_findings, hardware_findings, input_media_findings,
  input_size_findings, output_media_findings, service_findings, software_findings,
}
use muti_ai.Feasibility.Sections.{
  os_findings, gui_findings, gpu_findings, cpu_findings, memory_findings, network_findings,
}
use muti_ai.Feasibility.Merge.{
  merge_requirements, os_conflict, sorted_common, merged_os, max_capacity, maximum, union, set_all,
  setdefault,
}
use muti_ai.Feasibility.Satisfies.{Satisfies}
use muti_ai.Feasibility.Validation.{validate_profile-Satisfies}
use muti_ai.Feasibility.Outcome.{FeasibilityOutcome, outcome, all_gaps, outcome_iff}
use muti_ai.Feasibility.Validity.{is_valid_workload-merge_requirements}
use muti_ai.Feasibility.{is_valid_workload, unique_items, all_unique}
use muti_ai.Feasibility.Strictness.{merge_requirements-Satisfies}

abbrev casefold : String → String
casefold s = s

abbrev light_work : WorkloadRequirements
light_work = record {
  schema_version = "1.0";
  os_families = OsFamily.linux ∷ OsFamily.macos ∷ [];
  requires_gui = false;
  requires_gpu = false;
  min_gpu_memory_mb = none;
  min_cpu_capacity = CapacityClass.light;
  min_memory_mb = some 512;
  required_tools = "git" ∷ [];
  requires_network = false;
  required_external_services = [];
  required_hardware = [];
  required_proprietary_software = [];
  input_media_types = [];
  output_media_types = [];
  estimated_duration_seconds = none;
  estimated_input_size_bytes = none;
  resource_intensive = false;
}

abbrev network_work : WorkloadRequirements
network_work = record light_work {
  schema_version = "1.0";
  os_families = OsFamily.linux ∷ [];
  min_cpu_capacity = CapacityClass.standard;
  required_tools = "python" ∷ "git" ∷ [];
  requires_network = true;
}

abbrev profile : RuntimeCapabilityProfileSpec
profile = record {
  os_family = OsFamily.linux;
  os_version = none;
  architecture = none;
  headless = some true;
  cpu_capacity_class = CapacityClass.standard;
  memory_mb = some 2048;
  gpu_available = some false;
  gpu_kind = none;
  gpu_memory_mb = none;
  installed_tools = "git" ∷ "python" ∷ [];
  tool_inventory_complete = true;
  network_access = some true;
  external_services = [];
  external_service_inventory_complete = false;
  attached_hardware = [];
  hardware_inventory_complete = false;
  proprietary_software = [];
  proprietary_software_inventory_complete = false;
  supported_input_media_types = [];
  supported_output_media_types = [];
  media_inventory_complete = false;
  max_duration_seconds = none;
  max_input_size_bytes = none;
}

abbrev workload : RoleWorkload
workload = record {
  role_key = "dev";
  binding_key = "codex";
  requirements = network_work;
  requirement_conflict = false;
}

abbrev merged : WorkloadRequirements
merged = (merge_requirements casefold light_work network_work).0

no_conflict : (merge_requirements casefold light_work network_work).1 ≡ false
unfolding merge_requirements os_conflict sorted_common OsFamily-discrete
no_conflict = refl

no_findings :
    validate_profile casefold
      (record workload { requirements = merged })
      profile
      RuntimeSecurityMode.demo_full_access
    ≡ []
unfolding validate_profile merge_requirements os_findings merged_os sorted_common OsFamily-discrete
    gui_findings gpu_findings cpu_findings CapacityClass-discrete max_capacity memory_findings
    maximum tool_findings validate_inventory union set_all setdefault String-discrete
    duration_findings hardware_findings input_media_findings input_size_findings missing_items
    network_findings output_media_findings service_findings software_findings validate_limit
no_findings = refl

merged-Satisfies : Satisfies casefold merged profile RuntimeSecurityMode.demo_full_access
merged-Satisfies =
    (validate_profile-Satisfies casefold (record workload { requirements = merged }) profile
        RuntimeSecurityMode.demo_full_access).0
      no_findings

validate_profile-Satisfies_example :
    (validate_profile casefold workload profile RuntimeSecurityMode.workspace_restricted ≡ [])
    ↔ Satisfies casefold network_work profile RuntimeSecurityMode.workspace_restricted
validate_profile-Satisfies_example =
    validate_profile-Satisfies casefold workload profile RuntimeSecurityMode.workspace_restricted

merge_requirements-Satisfies_example :
    Satisfies casefold light_work profile RuntimeSecurityMode.demo_full_access
    × Satisfies casefold network_work profile RuntimeSecurityMode.demo_full_access
merge_requirements-Satisfies_example =
    merge_requirements-Satisfies casefold light_work network_work profile
      RuntimeSecurityMode.demo_full_access no_conflict merged-Satisfies

abbrev gap : FeasibilityFinding
gap = unknown_finding ReasonCode.memory_capacity_unknown workload "memory_mb" Json.null

outcome_iff_example :
    ((outcome (gap ∷ []) ≡ FeasibilityOutcome.feasible) ↔ (gap ∷ [] ≡ []))
    × ((outcome (gap ∷ []) ≡ FeasibilityOutcome.capability_unknown)
        ↔ ((gap ∷ [] ≢ []) × (all_gaps (gap ∷ []) ≡ true)))
    × ((outcome (gap ∷ []) ≡ FeasibilityOutcome.blocked) ↔ (all_gaps (gap ∷ []) ≡ false))
outcome_iff_example = outcome_iff (gap ∷ [])

light_work-is_valid : is_valid_workload casefold light_work ≡ true
unfolding is_valid_workload unique_items all_unique OsFamily-discrete
light_work-is_valid = refl

network_work-is_valid : is_valid_workload casefold network_work ≡ true
unfolding is_valid_workload unique_items all_unique String-discrete
network_work-is_valid = refl

is_valid_workload-merge_requirements_example :
    is_valid_workload casefold (merge_requirements casefold light_work network_work).0 ≡ true
is_valid_workload-merge_requirements_example =
    is_valid_workload-merge_requirements casefold light_work network_work light_work-is_valid
      network_work-is_valid
