-- ===== src/Feasibility/Meaning.antt =====
-- What the sections of `_validate_profile` (src/mutiai/services/feasibility.py) find, against what the
-- requirements mean.
use muti_ai.Prelude.{
  ◌≤◌, String, ◌≡◌, ◌≢◌, ◌↔◌, refl, Bool, true, false, some, List, [], ◌∷◌, arith, string_eq, map,
  elem, Bool-cases, Option-cases, inl, inr,
}
use muti_ai.Feasibility.{
  OsFamily, os_family_eq, CapacityClass, capacity_class_eq, RuntimeSecurityMode,
  RuntimeCapabilityProfileSpec, ReasonCode,
}
use muti_ai.Feasibility.Findings.{
  RoleWorkload, capacity_rank, missing_items, validate_inventory, validate_limit,
}
use muti_ai.Feasibility.Sections.{
  os_findings, gui_findings, gpu_memory_findings, gpu_findings, cpu_findings, memory_findings,
  network_findings,
}
use muti_ai.Feasibility.Profile.{duration_findings, input_size_findings}
use muti_ai.Feasibility.Satisfies.{Enough, Covers}

module _ (w : RoleWorkload) (p : RuntimeCapabilityProfileSpec) where
  pub os_iff : (os_findings w p ≡ []) ↔ (
      w.requirements.os_families ≢ []
      → (p.os_family ≢ OsFamily.unknown) × (elem p.os_family w.requirements.os_families ≡ true))
  unfolding os_findings
  os_iff = (λ h some_os. ground arith, λ h. ground arith)

  pub gui_iff :
      (gui_findings w p ≡ []) ↔ (w.requirements.requires_gui ≡ true → p.headless ≡ some false)
  unfolding gui_findings
  gui_iff = (λ h gui. ground arith, λ h. ground arith)

  pub cpu_iff : (cpu_findings w p ≡ []) ↔ (
      (p.cpu_capacity_class ≢ CapacityClass.unknown)
      × (capacity_rank w.requirements.min_cpu_capacity ≤ capacity_rank p.cpu_capacity_class))
  unfolding cpu_findings
  cpu_iff = (λ h. ground arith, λ h. ground arith)

  pub network_iff :
      (mode : RuntimeSecurityMode)
      → (network_findings w p mode ≡ []) ↔ (
          w.requirements.requires_network ≡ true
          → (mode ≡ RuntimeSecurityMode.demo_full_access) × (p.network_access ≡ some true))
  unfolding network_findings
  network_iff mode = (λ h net. ground arith, λ h. ground arith)

  pub gpu_memory_iff :
      (gpu_memory_findings w p ≡ []) ↔ Enough w.requirements.min_gpu_memory_mb p.gpu_memory_mb
  unfolding gpu_memory_findings
  gpu_memory_iff = (
    λ h r e. elim (Option-cases p.gpu_memory_mb) [
      | inl (a, enough) ↦ (a, enough, ground arith)
      | inr missing ↦ absurd (ground arith)
    ],
    λ h. elim (Option-cases w.requirements.min_gpu_memory_mb) [
      | inl (r, e) ↦ let (a, enough, le) = h r e in ground arith
      | inr unlimited ↦ ground arith
    ],
  )

  pub memory_iff : (memory_findings w p ≡ []) ↔ Enough w.requirements.min_memory_mb p.memory_mb
  unfolding memory_findings
  memory_iff = (
    λ h r e. elim (Option-cases p.memory_mb) [
      | inl (a, enough) ↦ (a, enough, ground arith)
      | inr missing ↦ absurd (ground arith)
    ],
    λ h. elim (Option-cases w.requirements.min_memory_mb) [
      | inl (r, e) ↦ let (a, enough, le) = h r e in ground arith
      | inr unlimited ↦ ground arith
    ],
  )

  pub gpu_iff : (gpu_findings w p ≡ []) ↔ (
      w.requirements.requires_gpu ≡ true
      → (p.gpu_available ≡ some true) × Enough w.requirements.min_gpu_memory_mb p.gpu_memory_mb)
  unfolding gpu_findings
  gpu_iff = (
    λ h gpu. (ground arith, gpu_memory_iff.0 (ground arith)),
    λ h. elim (Bool-cases w.requirements.requires_gpu) [
      | inl gpu ↦ let (available, enough) = h gpu in ground (arith, gpu_memory_iff.1 enough)
      | inr other ↦ ground arith
    ],
  )

module _ (casefold : String → String) where
  pub missing_iff :
      (required available : List String)
      → (missing_items casefold required available ≡ []) ↔ Covers casefold required available
  unfolding missing_items
  missing_iff [] available = (λ h. tt, λ h. refl)
  missing_iff (item ∷ required) available = (
    λ h. elim (Bool-cases (elem (casefold item) (map casefold available))) [
      | inl there ↦ (there, (missing_iff required available).0 (ground arith))
      | inr absent ↦ absurd (ground arith)
    ],
    λ h. ground (arith, h.0, (missing_iff required available).1 h.1),
  )

  pub inventory_iff :
      (w : RoleWorkload) (capability : String) (required available : List String) (complete : Bool)
      (blocked unknown_ : ReasonCode) (alternatives : List String)
      → (validate_inventory casefold w capability required available complete blocked unknown_
            alternatives
          ≡ [])
        ↔ Covers casefold required available
  unfolding validate_inventory
  inventory_iff w capability required available complete blocked unknown_ alternatives = (
    λ h. (missing_iff required available).0 (ground arith),
    λ h. ground (arith, (missing_iff required available).1 h),
  )

  module _ (w : RoleWorkload) (p : RuntimeCapabilityProfileSpec) where
    pub duration_iff :
        (duration_findings casefold w p ≡ [])
        ↔ Enough w.requirements.estimated_duration_seconds p.max_duration_seconds
    unfolding duration_findings validate_limit
    duration_iff = (
      λ h r e. elim (Option-cases p.max_duration_seconds) [
        | inl (a, enough) ↦ (a, enough, ground arith)
        | inr missing ↦ absurd (ground arith)
      ],
      λ h. elim (Option-cases w.requirements.estimated_duration_seconds) [
        | inl (r, e) ↦ let (a, enough, le) = h r e in ground arith
        | inr unlimited ↦ ground arith
      ],
    )

    pub input_size_iff :
        (input_size_findings casefold w p ≡ [])
        ↔ Enough w.requirements.estimated_input_size_bytes p.max_input_size_bytes
    unfolding input_size_findings validate_limit
    input_size_iff = (
      λ h r e. elim (Option-cases p.max_input_size_bytes) [
        | inl (a, enough) ↦ (a, enough, ground arith)
        | inr missing ↦ absurd (ground arith)
      ],
      λ h. elim (Option-cases w.requirements.estimated_input_size_bytes) [
        | inl (r, e) ↦ let (a, enough, le) = h r e in ground arith
        | inr unlimited ↦ ground arith
      ],
    )
