-- ===== src/Feasibility/Strictness.antt =====
-- Merged requirements (src/mutiai/services/feasibility.py) are at least as strict as both parts.
use muti_ai.Prelude.{
  is_empty, ℕ, ◌≤◌, max, String, ◌≡◌, ◌≢◌, refl, true, false, ◌||◌, Option, none, some, List, [],
  ◌∷◌, arith, if◌then◌else◌, elem, Bool-cases, inl, inr,
}
use muti_ai.Feasibility.{
  OsFamily, os_family_eq, CapacityClass, RuntimeSecurityMode, WorkloadRequirements,
  RuntimeCapabilityProfileSpec,
}
use muti_ai.Feasibility.Findings.{capacity_rank}
use muti_ai.Feasibility.Merge.{
  sorted_common, os_conflict, merged_os, max_capacity, maximum, merge_requirements,
}
use muti_ai.Feasibility.Satisfies.{Enough, Satisfies}
use muti_ai.Feasibility.Inventory.{union-Covers}

non_empty : (families : List OsFamily) → is_empty families ≡ false → families ≢ []
non_empty families h e = ground arith

maximum-Enough :
    (l r actual : Option ℕ) → Enough (maximum l r) actual → Enough l actual × Enough r actual
unfolding maximum
maximum-Enough none r actual h = (λ n e. absurd (ground arith), h)
maximum-Enough (some l) none actual h = (h, λ n e. absurd (ground arith))
maximum-Enough (some l) (some r) actual h =
    let (a, e, le) = h (max l r) refl in
    (λ n en. (a, e, ground arith), λ n en. (a, e, ground arith))

abbrev OsFits : List OsFamily → OsFamily → Type 0
OsFits required actual = required ≢ [] → (actual ≢ OsFamily.unknown) × (elem actual required ≡ true)

sorted_common-elem :
    (first second : List OsFamily) (f : OsFamily)
    → elem f (sorted_common first second) ≡ true
    → (elem f first ≡ true) × (elem f second ≡ true)
unfolding sorted_common
sorted_common-elem first second f h = ground arith

merged_os-OsFits :
    (first second : List OsFamily) (actual : OsFamily)
    → os_conflict first second ≡ false
    → OsFits (merged_os first second) actual
    → OsFits first actual × OsFits second actual
unfolding merged_os os_conflict
merged_os-OsFits [] second actual c h = (λ e. absurd (e refl), h)
merged_os-OsFits (x ∷ first) [] actual c h = (h, λ e. absurd (e refl))
merged_os-OsFits (x ∷ first) (y ∷ second) actual c h =
    let (known, common) = h (non_empty (sorted_common (x ∷ first) (y ∷ second)) c) in
    let (in_first, in_second) = sorted_common-elem (x ∷ first) (y ∷ second) actual common in
    (λ e. (known, in_first), λ e. (known, in_second))

capacity_rank-heavy : (c : CapacityClass) → capacity_rank c ≤ 3
capacity_rank-heavy CapacityClass.unknown = omega arith
capacity_rank-heavy CapacityClass.light = omega arith
capacity_rank-heavy CapacityClass.standard = omega arith
capacity_rank-heavy CapacityClass.heavy = omega arith

max_capacity-rank :
    (first second : CapacityClass)
    → (capacity_rank first ≤ capacity_rank (max_capacity first second))
      × (capacity_rank second ≤ capacity_rank (max_capacity first second))
unfolding max_capacity
max_capacity-rank first second = (ground arith, ground arith)

merged_cpu-rank :
    (first second : WorkloadRequirements) (available : ℕ)
    → capacity_rank (
        if first.resource_intensive || second.resource_intensive
        then CapacityClass.heavy
        else max_capacity first.min_cpu_capacity second.min_cpu_capacity)
      ≤ available
    → (capacity_rank first.min_cpu_capacity ≤ available)
      × (capacity_rank second.min_cpu_capacity ≤ available)
merged_cpu-rank first second available h =
    let (l, r) = max_capacity-rank first.min_cpu_capacity second.min_cpu_capacity in
    let lh : capacity_rank first.min_cpu_capacity ≤ 3 =
      capacity_rank-heavy first.min_cpu_capacity in
    let rh : capacity_rank second.min_cpu_capacity ≤ 3 =
      capacity_rank-heavy second.min_cpu_capacity in
    elim (Bool-cases (first.resource_intensive || second.resource_intensive)) [
      | inl heavy ↦ let h' : 3 ≤ available = rw heavy at h in (omega arith, omega arith)
      | inr other ↦
          let h' : capacity_rank (max_capacity first.min_cpu_capacity second.min_cpu_capacity)
              ≤ available =
            rw other at h in
          (omega arith, omega arith)
    ]

module _ (casefold : String → String) (first second : WorkloadRequirements) where
  -- If the families of two requirements do not conflict, a Runtime that satisfies the merged
  -- requirements satisfies both.
  pub merge_requirements-Satisfies :
      (p : RuntimeCapabilityProfileSpec) (mode : RuntimeSecurityMode)
      → (merge_requirements casefold first second).1 ≡ false
      → Satisfies casefold (merge_requirements casefold first second).0 p mode
      → Satisfies casefold first p mode × Satisfies casefold second p mode
  unfolding merge_requirements
  merge_requirements-Satisfies p mode c s =
      let os_ = merged_os-OsFits first.os_families second.os_families p.os_family c s.os in
      let cpu_ = merged_cpu-rank first second (capacity_rank p.cpu_capacity_class) s.cpu.1 in
      let memory_ = maximum-Enough first.min_memory_mb second.min_memory_mb p.memory_mb s.memory in
      let duration_ =
        maximum-Enough first.estimated_duration_seconds second.estimated_duration_seconds
          p.max_duration_seconds s.duration in
      let input_size_ =
        maximum-Enough first.estimated_input_size_bytes second.estimated_input_size_bytes
          p.max_input_size_bytes s.input_size in
      let tools_ =
        union-Covers casefold first.required_tools second.required_tools p.installed_tools
          s.tools in
      let services_ =
        union-Covers casefold first.required_external_services second.required_external_services
          p.external_services s.services in
      let hardware_ =
        union-Covers casefold first.required_hardware second.required_hardware p.attached_hardware
          s.hardware in
      let software_ =
        union-Covers casefold first.required_proprietary_software
          second.required_proprietary_software p.proprietary_software s.software in
      let input_media_ =
        union-Covers casefold first.input_media_types second.input_media_types
          p.supported_input_media_types s.input_media in
      let output_media_ =
        union-Covers casefold first.output_media_types second.output_media_types
          p.supported_output_media_types s.output_media in
      (
        record {
          os = os_.0;
          gui = λ h. s.gui (ground arith);
          gpu = λ h.
              let (available, enough) = s.gpu (ground arith) in
              (
                available,
                (maximum-Enough first.min_gpu_memory_mb second.min_gpu_memory_mb p.gpu_memory_mb
                    enough).0,
              );
          cpu = (s.cpu.0, cpu_.0);
          memory = memory_.0;
          tools = tools_.0;
          network = λ h. s.network (ground arith);
          services = services_.0;
          hardware = hardware_.0;
          software = software_.0;
          input_media = input_media_.0;
          output_media = output_media_.0;
          duration = duration_.0;
          input_size = input_size_.0;
        },
        record {
          os = os_.1;
          gui = λ h. s.gui (ground arith);
          gpu = λ h.
              let (available, enough) = s.gpu (ground arith) in
              (
                available,
                (maximum-Enough first.min_gpu_memory_mb second.min_gpu_memory_mb p.gpu_memory_mb
                    enough).1,
              );
          cpu = (s.cpu.0, cpu_.1);
          memory = memory_.1;
          tools = tools_.1;
          network = λ h. s.network (ground arith);
          services = services_.1;
          hardware = hardware_.1;
          software = software_.1;
          input_media = input_media_.1;
          output_media = output_media_.1;
          duration = duration_.1;
          input_size = input_size_.1;
        },
      )
