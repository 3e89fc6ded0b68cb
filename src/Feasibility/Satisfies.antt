-- ===== src/Feasibility/Satisfies.antt =====
-- What it means that a Runtime meets the requirements of a workload
-- (src/mutiai/services/feasibility.py, src/mutiai/domain/feasibility.py).
use muti_ai.Prelude.{
  ℕ, ◌≤◌, String, ◌≡◌, ◌≢◌, true, false, Option, some, List, [], string_eq, map, elem, All,
}
use muti_ai.Feasibility.{
  OsFamily, os_family_eq, CapacityClass, capacity_class_eq, RuntimeSecurityMode,
  WorkloadRequirements, RuntimeCapabilityProfileSpec,
}
use muti_ai.Feasibility.Findings.{capacity_rank}

-- A declared amount that is enough.
abbrev pub Enough : (required actual : Option ℕ) → Type 0
Enough required actual = (r : ℕ) → required ≡ some r → (a : ℕ) × (actual ≡ some a) × (r ≤ a)

-- Every required item is among the available ones, up to case.
abbrev pub Covers : (String → String) → (required available : List String) → Type 0
Covers casefold required available =
    All (λ item. elem (casefold item) (map casefold available) ≡ true) required

-- What it means that a Runtime with this profile, under this security mode, can do the work.
pub record Satisfies (casefold : String → String) (r : WorkloadRequirements)
    (p : RuntimeCapabilityProfileSpec) (mode : RuntimeSecurityMode) : Type 0 where
  pub os :
      r.os_families ≢ []
      → (p.os_family ≢ OsFamily.unknown) × (elem p.os_family r.os_families ≡ true)
  pub gui : r.requires_gui ≡ true → p.headless ≡ some false
  pub gpu :
      r.requires_gpu ≡ true
      → (p.gpu_available ≡ some true) × Enough r.min_gpu_memory_mb p.gpu_memory_mb
  pub cpu :
      (p.cpu_capacity_class ≢ CapacityClass.unknown)
      × (capacity_rank r.min_cpu_capacity ≤ capacity_rank p.cpu_capacity_class)
  pub memory : Enough r.min_memory_mb p.memory_mb
  pub tools : Covers casefold r.required_tools p.installed_tools
  pub network :
      r.requires_network ≡ true
      → (mode ≡ RuntimeSecurityMode.demo_full_access) × (p.network_access ≡ some true)
  pub services : Covers casefold r.required_external_services p.external_services
  pub hardware : Covers casefold r.required_hardware p.attached_hardware
  pub software : Covers casefold r.required_proprietary_software p.proprietary_software
  pub input_media : Covers casefold r.input_media_types p.supported_input_media_types
  pub output_media : Covers casefold r.output_media_types p.supported_output_media_types
  pub duration : Enough r.estimated_duration_seconds p.max_duration_seconds
  pub input_size : Enough r.estimated_input_size_bytes p.max_input_size_bytes
