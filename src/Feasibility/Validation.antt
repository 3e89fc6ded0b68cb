-- ===== src/Feasibility/Validation.antt =====
-- `_validate_profile` (src/mutiai/services/feasibility.py) against what the requirements mean.
use muti_ai.Prelude.{String, ◌≡◌, ◌↔◌, refl, List, [], ◌∷◌, ◌++◌, string_eq}
use muti_ai.Feasibility.{
  os_family_eq, capacity_class_eq, RuntimeSecurityMode, RuntimeCapabilityProfileSpec,
}
use muti_ai.Feasibility.Findings.{RoleWorkload}
use muti_ai.Feasibility.Profile.{
  tool_findings, service_findings, hardware_findings, software_findings, input_media_findings,
  output_media_findings, validate_profile,
}
use muti_ai.Feasibility.Satisfies.{Satisfies}
use muti_ai.Feasibility.Meaning.{
  os_iff, gui_iff, gpu_iff, cpu_iff, memory_iff, network_iff, inventory_iff, duration_iff,
  input_size_iff,
}

append-eq-nil {ℓ} : {A : Type ℓ} (xs ys : List A) → (xs ++ ys ≡ []) ↔ ((xs ≡ []) × (ys ≡ []))
append-eq-nil [] ys = (λ h. (refl, h), λ h. h.1)
append-eq-nil (x ∷ xs) ys = (λ h. cc, λ h. cc)

append-nil-nil {ℓ} : {A : Type ℓ} (xs ys : List A) → xs ≡ [] → ys ≡ [] → xs ++ ys ≡ []
append-nil-nil xs ys h k = (append-eq-nil xs ys).1 (h, k)

module _ (casefold : String → String) (w : RoleWorkload) (p : RuntimeCapabilityProfileSpec)
    (mode : RuntimeSecurityMode) where
  validate_profile-Satisfies_to :
      validate_profile casefold w p mode ≡ [] → Satisfies casefold w.requirements p mode
  unfolding validate_profile tool_findings service_findings hardware_findings software_findings
      input_media_findings output_media_findings
  validate_profile-Satisfies_to h =
      let (h₁, t₁) = (append-eq-nil _ _).0 h in
      let (h₂, t₂) = (append-eq-nil _ _).0 t₁ in
      let (h₃, t₃) = (append-eq-nil _ _).0 t₂ in
      let (h₄, t₄) = (append-eq-nil _ _).0 t₃ in
      let (h₅, t₅) = (append-eq-nil _ _).0 t₄ in
      let (h₆, t₆) = (append-eq-nil _ _).0 t₅ in
      let (h₇, t₇) = (append-eq-nil _ _).0 t₆ in
      let (h₈, t₈) = (append-eq-nil _ _).0 t₇ in
      let (h₉, t₉) = (append-eq-nil _ _).0 t₈ in
      let (h₁₀, t₁₀) = (append-eq-nil _ _).0 t₉ in
      let (h₁₁, t₁₁) = (append-eq-nil _ _).0 t₁₀ in
      let (h₁₂, t₁₂) = (append-eq-nil _ _).0 t₁₁ in
      let (h₁₃, h₁₄) = (append-eq-nil _ _).0 t₁₂ in
      record {
        os = (os_iff w p).0 h₁;
        gui = (gui_iff w p).0 h₂;
        gpu = (gpu_iff w p).0 h₃;
        cpu = (cpu_iff w p).0 h₄;
        memory = (memory_iff w p).0 h₅;
        tools = (inventory_iff casefold w _ _ _ _ _ _ _).0 h₆;
        network = (network_iff w p mode).0 h₇;
        services = (inventory_iff casefold w _ _ _ _ _ _ _).0 h₈;
        hardware = (inventory_iff casefold w _ _ _ _ _ _ _).0 h₉;
        software = (inventory_iff casefold w _ _ _ _ _ _ _).0 h₁₀;
        input_media = (inventory_iff casefold w _ _ _ _ _ _ _).0 h₁₁;
        output_media = (inventory_iff casefold w _ _ _ _ _ _ _).0 h₁₂;
        duration = (duration_iff casefold w p).0 h₁₃;
        input_size = (input_size_iff casefold w p).0 h₁₄;
      }

  validate_profile-Satisfies_from :
      Satisfies casefold w.requirements p mode → validate_profile casefold w p mode ≡ []
  unfolding validate_profile tool_findings service_findings hardware_findings software_findings
      input_media_findings output_media_findings
  validate_profile-Satisfies_from s = append-nil-nil _ _ ((os_iff w p).1 s.os) (
      append-nil-nil _ _ ((gui_iff w p).1 s.gui) (
        append-nil-nil _ _ ((gpu_iff w p).1 s.gpu) (
          append-nil-nil _ _ ((cpu_iff w p).1 s.cpu) (
            append-nil-nil _ _ ((memory_iff w p).1 s.memory) (
              append-nil-nil _ _ ((inventory_iff casefold w _ _ _ _ _ _ _).1 s.tools) (
                append-nil-nil _ _ ((network_iff w p mode).1 s.network) (
                  append-nil-nil _ _ ((inventory_iff casefold w _ _ _ _ _ _ _).1 s.services) (
                    append-nil-nil _ _ ((inventory_iff casefold w _ _ _ _ _ _ _).1 s.hardware) (
                      append-nil-nil _ _ ((inventory_iff casefold w _ _ _ _ _ _ _).1 s.software) (
                        append-nil-nil _ _
                          ((inventory_iff casefold w _ _ _ _ _ _ _).1 s.input_media)
                          (append-nil-nil _ _
                            ((inventory_iff casefold w _ _ _ _ _ _ _).1 s.output_media)
                            (append-nil-nil _ _ ((duration_iff casefold w p).1 s.duration)
                              ((input_size_iff casefold w p).1 s.input_size)))))))))))))

  -- The check of a profile has no findings exactly when the Runtime can do the work: the right
  -- system, a screen and a GPU where they are required, enough of every amount, every required item
  -- in the inventories, and a network that the binding's security mode allows.
  pub validate_profile-Satisfies :
      (validate_profile casefold w p mode ≡ []) ↔ Satisfies casefold w.requirements p mode
  validate_profile-Satisfies = (validate_profile-Satisfies_to, validate_profile-Satisfies_from)
