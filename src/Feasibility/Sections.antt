-- ===== src/Feasibility/Sections.antt =====
-- The sections of `_validate_profile` (src/mutiai/services/feasibility.py) up to the network.
use muti_ai.Prelude.{
  Bool, true, false, Option, none, some, List, [], ◌∷◌, if◌then◌else◌, ltb, ◌==◌, string_eq, map,
  elem,
}
use muti_ai.Models.Json.{Json, strs}
use muti_ai.Feasibility.{
  OsFamily, os_family_eq, CapacityClass, capacity_class_eq, RuntimeSecurityMode, security_mode_eq,
  WorkloadRequirements, RuntimeCapabilityProfileSpec, ReasonCode, FeasibilityFinding,
}
use muti_ai.Feasibility.Findings.{
  RoleWorkload, capacity_rank, capacity_text, os_text, finding, unknown_finding,
}

-- The sections of `_validate_profile`, in order.
module _ (workload : RoleWorkload) (profile : RuntimeCapabilityProfileSpec) where
  abbrev pub req : WorkloadRequirements
  req = workload.requirements

  unfoldable pub os_findings : List FeasibilityFinding
  unfolding finding unknown_finding
  os_findings =
      let required = strs (map os_text req.os_families) in
      elim req.os_families [
        | [] ↦ []
        | _ ∷ _ ↦
            if profile.os_family == OsFamily.unknown
            then unknown_finding ReasonCode.os_capability_unknown workload "os_family" required ∷ []
            else if elem profile.os_family req.os_families
            then []
            else finding ReasonCode.os_capability_mismatch workload "os_family" required
                (Json.str (os_text profile.os_family))
                ("use_linux_native_tool" ∷ "use_compatible_binding" ∷ [])
              ∷ []
      ]

  unfoldable pub gui_findings : List FeasibilityFinding
  unfolding finding unknown_finding
  gui_findings =
      if req.requires_gui
      then (elim profile.headless [
        | none ↦
            unknown_finding ReasonCode.gui_capability_unknown workload "headless" (Json.bool false)
            ∷ []
        | some true ↦
            finding ReasonCode.gui_unavailable workload "headless" (Json.bool false)
              (Json.bool true) ("use_headless_tool" ∷ "manual_handling" ∷ [])
            ∷ []
        | some false ↦ []
      ])
      else []

  unfoldable pub gpu_memory_findings : List FeasibilityFinding
  unfolding finding unknown_finding
  gpu_memory_findings = elim req.min_gpu_memory_mb [
    | none ↦ []
    | some required ↦ elim profile.gpu_memory_mb [
      | none ↦
          unknown_finding ReasonCode.gpu_memory_unknown workload "gpu_memory_mb" (Json.num required)
          ∷ []
      | some actual ↦
          if ltb actual required
          then finding ReasonCode.gpu_memory_insufficient workload "gpu_memory_mb"
              (Json.num required) (Json.num actual) ("use_gpu_binding" ∷ "reduce_workload" ∷ [])
            ∷ []
          else []
    ]
  ]

  unfoldable pub gpu_findings : List FeasibilityFinding
  unfolding finding unknown_finding
  gpu_findings =
      if req.requires_gpu
      then (elim profile.gpu_available [
        | none ↦
            unknown_finding ReasonCode.gpu_capability_unknown workload "gpu_available"
              (Json.bool true)
            ∷ []
        | some false ↦
            finding ReasonCode.gpu_unavailable workload "gpu_available" (Json.bool true)
              (Json.bool false) ("use_gpu_binding" ∷ "use_external_service" ∷ [])
            ∷ []
        | some true ↦ gpu_memory_findings
      ])
      else []

  unfoldable pub cpu_findings : List FeasibilityFinding
  unfolding finding unknown_finding
  cpu_findings =
      let required = Json.str (capacity_text req.min_cpu_capacity) in
      if profile.cpu_capacity_class == CapacityClass.unknown
      then unknown_finding ReasonCode.cpu_capacity_unknown workload "cpu_capacity_class" required
        ∷ []
      else if ltb (capacity_rank profile.cpu_capacity_class) (capacity_rank req.min_cpu_capacity)
      then finding ReasonCode.cpu_capacity_insufficient workload "cpu_capacity_class" required
          (Json.str (capacity_text profile.cpu_capacity_class))
          ("reduce_workload" ∷ "use_external_service" ∷ [])
        ∷ []
      else []

  unfoldable pub memory_findings : List FeasibilityFinding
  unfolding finding unknown_finding
  memory_findings = elim req.min_memory_mb [
    | none ↦ []
    | some required ↦ elim profile.memory_mb [
      | none ↦
          unknown_finding ReasonCode.memory_capacity_unknown workload "memory_mb"
            (Json.num required)
          ∷ []
      | some actual ↦
          if ltb actual required
          then finding ReasonCode.memory_capacity_insufficient workload "memory_mb"
              (Json.num required) (Json.num actual) ("reduce_workload" ∷ "use_capable_binding" ∷ [])
            ∷ []
          else []
    ]
  ]

  -- A restricted binding has no network, whatever the profile says.
  abbrev pub effective_network : RuntimeSecurityMode → Option Bool
  effective_network RuntimeSecurityMode.workspace_restricted = some false
  effective_network RuntimeSecurityMode.demo_full_access = profile.network_access

  unfoldable pub network_findings : RuntimeSecurityMode → List FeasibilityFinding
  unfolding finding unknown_finding
  network_findings security_mode =
      if req.requires_network
      then (elim (effective_network security_mode) [
        | none ↦
            unknown_finding ReasonCode.network_capability_unknown workload "network_access"
              (Json.bool true)
            ∷ []
        | some false ↦
            finding ReasonCode.network_unavailable workload "network_access" (Json.bool true)
              (Json.bool false) ("use_network_enabled_binding" ∷ [])
            ∷ []
        | some true ↦ []
      ])
      else []
