-- ===== src/Feasibility/Profile.antt =====
-- `_validate_profile` (src/mutiai/services/feasibility.py): all findings against one Runtime profile.
use muti_ai.Prelude.{String, none, some, List, [], ◌∷◌, ◌++◌, string_eq}
use muti_ai.Feasibility.{
  os_family_eq, capacity_class_eq, RuntimeSecurityMode, security_mode_eq,
  RuntimeCapabilityProfileSpec, ReasonCode, FeasibilityFinding,
}
use muti_ai.Feasibility.Findings.{RoleWorkload, validate_inventory, validate_limit}
use muti_ai.Feasibility.Sections.{
  os_findings, gui_findings, gpu_findings, cpu_findings, memory_findings, network_findings,
}

module _ (casefold : String → String) (workload : RoleWorkload)
    (profile : RuntimeCapabilityProfileSpec) where
  unfoldable pub tool_findings : List FeasibilityFinding
  tool_findings =
      validate_inventory casefold workload "installed_tools" workload.requirements.required_tools
        profile.installed_tools profile.tool_inventory_complete ReasonCode.required_tool_unavailable
        ReasonCode.tool_inventory_unknown ("use_preconfigured_binding" ∷ [])

  unfoldable pub service_findings : List FeasibilityFinding
  service_findings =
      validate_inventory casefold workload "external_services"
        workload.requirements.required_external_services profile.external_services
        profile.external_service_inventory_complete ReasonCode.required_service_unavailable
        ReasonCode.service_inventory_unknown
        ("use_external_service" ∷ "use_preconfigured_binding" ∷ [])

  unfoldable pub hardware_findings : List FeasibilityFinding
  hardware_findings =
      validate_inventory casefold workload "attached_hardware"
        workload.requirements.required_hardware profile.attached_hardware
        profile.hardware_inventory_complete ReasonCode.required_hardware_unavailable
        ReasonCode.hardware_inventory_unknown ("manual_handling" ∷ "use_capable_binding" ∷ [])

  unfoldable pub software_findings : List FeasibilityFinding
  software_findings =
      validate_inventory casefold workload "proprietary_software"
        workload.requirements.required_proprietary_software profile.proprietary_software
        profile.proprietary_software_inventory_complete ReasonCode.proprietary_software_unavailable
        ReasonCode.proprietary_software_inventory_unknown
        ("use_cross_platform_tool" ∷ "manual_handling" ∷ [])

  unfoldable pub input_media_findings : List FeasibilityFinding
  input_media_findings =
      validate_inventory casefold workload "supported_input_media_types"
        workload.requirements.input_media_types profile.supported_input_media_types
        profile.media_inventory_complete ReasonCode.input_media_unsupported
        ReasonCode.media_capability_unknown ("convert_input" ∷ "use_capable_binding" ∷ [])

  unfoldable pub output_media_findings : List FeasibilityFinding
  output_media_findings =
      validate_inventory casefold workload "supported_output_media_types"
        workload.requirements.output_media_types profile.supported_output_media_types
        profile.media_inventory_complete ReasonCode.output_media_unsupported
        ReasonCode.media_capability_unknown ("change_output_format" ∷ "use_capable_binding" ∷ [])

  unfoldable pub duration_findings : List FeasibilityFinding
  duration_findings = elim workload.requirements.estimated_duration_seconds [
    | none ↦ []
    | some required ↦
        validate_limit workload "max_duration_seconds" required profile.max_duration_seconds
          ReasonCode.duration_limit_unknown ReasonCode.duration_limit_exceeded
  ]

  unfoldable pub input_size_findings : List FeasibilityFinding
  input_size_findings = elim workload.requirements.estimated_input_size_bytes [
    | none ↦ []
    | some required ↦
        validate_limit workload "max_input_size_bytes" required profile.max_input_size_bytes
          ReasonCode.input_size_limit_unknown ReasonCode.input_size_limit_exceeded
  ]

  -- `_validate_profile`, with the security mode of the binding.
  unfoldable pub validate_profile : RuntimeSecurityMode → List FeasibilityFinding
  validate_profile security_mode =
      os_findings workload profile
      ++ (gui_findings workload profile
          ++ (gpu_findings workload profile
              ++ (cpu_findings workload profile
                  ++ (memory_findings workload profile
                      ++ (tool_findings
                          ++ (network_findings workload profile security_mode
                              ++ (service_findings
                                  ++ (hardware_findings
                                      ++ (software_findings
                                          ++ (input_media_findings
                                              ++ (output_media_findings
                                                  ++ (duration_findings
                                                      ++ input_size_findings))))))))))))
