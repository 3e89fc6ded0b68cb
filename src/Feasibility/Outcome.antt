-- ===== src/Feasibility/Outcome.antt =====
-- `_outcome` and `require_feasible` (src/mutiai/services/feasibility.py): what the findings of a check
-- amount to.
use muti_ai.Prelude.{
  String, ◌≡◌, ◌≢◌, ◌↔◌, refl, Bool, true, false, not, ◌||◌, List, [], ◌∷◌, arith, if◌then◌else◌,
  ◌==◌, string_eq, String-discrete, any, all, Result, ok, err, Eq, ◌!=◌,
}
use muti_ai.Feasibility.{ReasonCode, FeasibilityFinding}

pub data FeasibilityOutcome : Type 0 where
  feasible conditional blocked capability_unknown : FeasibilityOutcome

unfoldable pub FeasibilityOutcome-discrete : Discrete FeasibilityOutcome
FeasibilityOutcome-discrete = hlevel

instance abbrev pub feasibility_outcome_eq : Eq FeasibilityOutcome
feasibility_outcome_eq = record { discrete = FeasibilityOutcome-discrete }

-- Python's `str.endswith`.
unfoldable pub ends_with : String → String → Bool
unfolding String-discrete
ends_with String.[] t = String.[] == t
ends_with (String.◌∷◌ c s) t = String.◌∷◌ c s == t || ends_with s t

unfoldable pub code_text : ReasonCode → String
code_text ReasonCode.workload_requirement_conflict = "WORKLOAD_REQUIREMENT_CONFLICT"
code_text ReasonCode.runtime_binding_unavailable = "RUNTIME_BINDING_UNAVAILABLE"
code_text ReasonCode.capability_profile_untrusted = "CAPABILITY_PROFILE_UNTRUSTED"
code_text ReasonCode.os_capability_unknown = "OS_CAPABILITY_UNKNOWN"
code_text ReasonCode.os_capability_mismatch = "OS_CAPABILITY_MISMATCH"
code_text ReasonCode.gui_capability_unknown = "GUI_CAPABILITY_UNKNOWN"
code_text ReasonCode.gui_unavailable = "GUI_UNAVAILABLE"
code_text ReasonCode.gpu_capability_unknown = "GPU_CAPABILITY_UNKNOWN"
code_text ReasonCode.gpu_unavailable = "GPU_UNAVAILABLE"
code_text ReasonCode.gpu_memory_unknown = "GPU_MEMORY_UNKNOWN"
code_text ReasonCode.gpu_memory_insufficient = "GPU_MEMORY_INSUFFICIENT"
code_text ReasonCode.cpu_capacity_unknown = "CPU_CAPACITY_UNKNOWN"
code_text ReasonCode.cpu_capacity_insufficient = "CPU_CAPACITY_INSUFFICIENT"
code_text ReasonCode.memory_capacity_unknown = "MEMORY_CAPACITY_UNKNOWN"
code_text ReasonCode.memory_capacity_insufficient = "MEMORY_CAPACITY_INSUFFICIENT"
code_text ReasonCode.required_tool_unavailable = "REQUIRED_TOOL_UNAVAILABLE"
code_text ReasonCode.tool_inventory_unknown = "TOOL_INVENTORY_UNKNOWN"
code_text ReasonCode.network_capability_unknown = "NETWORK_CAPABILITY_UNKNOWN"
code_text ReasonCode.network_unavailable = "NETWORK_UNAVAILABLE"
code_text ReasonCode.required_service_unavailable = "REQUIRED_SERVICE_UNAVAILABLE"
code_text ReasonCode.service_inventory_unknown = "SERVICE_INVENTORY_UNKNOWN"
code_text ReasonCode.required_hardware_unavailable = "REQUIRED_HARDWARE_UNAVAILABLE"
code_text ReasonCode.hardware_inventory_unknown = "HARDWARE_INVENTORY_UNKNOWN"
code_text ReasonCode.proprietary_software_unavailable = "PROPRIETARY_SOFTWARE_UNAVAILABLE"
code_text ReasonCode.proprietary_software_inventory_unknown =
    "PROPRIETARY_SOFTWARE_INVENTORY_UNKNOWN"
code_text ReasonCode.input_media_unsupported = "INPUT_MEDIA_UNSUPPORTED"
code_text ReasonCode.output_media_unsupported = "OUTPUT_MEDIA_UNSUPPORTED"
code_text ReasonCode.media_capability_unknown = "MEDIA_CAPABILITY_UNKNOWN"
code_text ReasonCode.duration_limit_unknown = "DURATION_LIMIT_UNKNOWN"
code_text ReasonCode.duration_limit_exceeded = "DURATION_LIMIT_EXCEEDED"
code_text ReasonCode.input_size_limit_unknown = "INPUT_SIZE_LIMIT_UNKNOWN"
code_text ReasonCode.input_size_limit_exceeded = "INPUT_SIZE_LIMIT_EXCEEDED"

-- `item.reason_code.endswith(("UNKNOWN", "UNTRUSTED"))`
unfoldable pub is_unknown : FeasibilityFinding → Bool
unfolding code_text ends_with
is_unknown f =
    ends_with (code_text f.reason_code) "UNKNOWN" || ends_with (code_text f.reason_code) "UNTRUSTED"

unfoldable pub outcome : List FeasibilityFinding → FeasibilityOutcome
outcome [] = FeasibilityOutcome.feasible
outcome (f ∷ fs) =
    if any is_unknown (f ∷ fs)
    then (if any (λ item. not (is_unknown item)) (f ∷ fs)
        then FeasibilityOutcome.blocked
        else FeasibilityOutcome.capability_unknown)
    else FeasibilityOutcome.blocked

-- `require_feasible`, with the outcome of the stored check.
unfoldable pub require_feasible : FeasibilityOutcome → Result FeasibilityOutcome (Unit {0})
require_feasible o = if o != FeasibilityOutcome.feasible then err o else ok tt

-- The codes that say that a capability is not declared, or that the declaration is not trusted.
abbrev pub is_gap : ReasonCode → Bool
is_gap ReasonCode.capability_profile_untrusted = true
is_gap ReasonCode.os_capability_unknown = true
is_gap ReasonCode.gui_capability_unknown = true
is_gap ReasonCode.gpu_capability_unknown = true
is_gap ReasonCode.gpu_memory_unknown = true
is_gap ReasonCode.cpu_capacity_unknown = true
is_gap ReasonCode.memory_capacity_unknown = true
is_gap ReasonCode.tool_inventory_unknown = true
is_gap ReasonCode.network_capability_unknown = true
is_gap ReasonCode.service_inventory_unknown = true
is_gap ReasonCode.hardware_inventory_unknown = true
is_gap ReasonCode.proprietary_software_inventory_unknown = true
is_gap ReasonCode.media_capability_unknown = true
is_gap ReasonCode.duration_limit_unknown = true
is_gap ReasonCode.input_size_limit_unknown = true
is_gap _ = false

gap_suffix :
    (code : ReasonCode)
    → (ends_with (code_text code) "UNKNOWN" || ends_with (code_text code) "UNTRUSTED") ≡ is_gap code
unfolding code_text ends_with
gap_suffix ReasonCode.workload_requirement_conflict = refl
gap_suffix ReasonCode.runtime_binding_unavailable = refl
gap_suffix ReasonCode.capability_profile_untrusted = refl
gap_suffix ReasonCode.os_capability_unknown = refl
gap_suffix ReasonCode.os_capability_mismatch = refl
gap_suffix ReasonCode.gui_capability_unknown = refl
gap_suffix ReasonCode.gui_unavailable = refl
gap_suffix ReasonCode.gpu_capability_unknown = refl
gap_suffix ReasonCode.gpu_unavailable = refl
gap_suffix ReasonCode.gpu_memory_unknown = refl
gap_suffix ReasonCode.gpu_memory_insufficient = refl
gap_suffix ReasonCode.cpu_capacity_unknown = refl
gap_suffix ReasonCode.cpu_capacity_insufficient = refl
gap_suffix ReasonCode.memory_capacity_unknown = refl
gap_suffix ReasonCode.memory_capacity_insufficient = refl
gap_suffix ReasonCode.required_tool_unavailable = refl
gap_suffix ReasonCode.tool_inventory_unknown = refl
gap_suffix ReasonCode.network_capability_unknown = refl
gap_suffix ReasonCode.network_unavailable = refl
gap_suffix ReasonCode.required_service_unavailable = refl
gap_suffix ReasonCode.service_inventory_unknown = refl
gap_suffix ReasonCode.required_hardware_unavailable = refl
gap_suffix ReasonCode.hardware_inventory_unknown = refl
gap_suffix ReasonCode.proprietary_software_unavailable = refl
gap_suffix ReasonCode.proprietary_software_inventory_unknown = refl
gap_suffix ReasonCode.input_media_unsupported = refl
gap_suffix ReasonCode.output_media_unsupported = refl
gap_suffix ReasonCode.media_capability_unknown = refl
gap_suffix ReasonCode.duration_limit_unknown = refl
gap_suffix ReasonCode.duration_limit_exceeded = refl
gap_suffix ReasonCode.input_size_limit_unknown = refl
gap_suffix ReasonCode.input_size_limit_exceeded = refl

is_unknown_lem : (f : FeasibilityFinding) → is_unknown f ≡ is_gap f.reason_code
unfolding is_unknown
is_unknown_lem f = gap_suffix f.reason_code

-- All findings are gaps.
abbrev pub all_gaps : List FeasibilityFinding → Bool
all_gaps fs = all (λ f. is_gap f.reason_code) fs

any-not-gap : (fs : List FeasibilityFinding) → any (λ f. not (is_unknown f)) fs ≡ not (all_gaps fs)
any-not-gap [] = refl
any-not-gap (f ∷ fs) = ground (arith, any-not-gap fs, is_unknown_lem f)

any-gap :
    (f : FeasibilityFinding) (fs : List FeasibilityFinding)
    → all_gaps (f ∷ fs) ≡ true
    → any is_unknown (f ∷ fs) ≡ true
any-gap f fs h = ground (arith, is_unknown_lem f)

-- The outcome is feasible exactly when there are no findings, unknown exactly when there are some and
-- all of them are gaps in what is declared, and blocked exactly when some finding is a known mismatch.
pub outcome_iff :
    (fs : List FeasibilityFinding)
    → ((outcome fs ≡ FeasibilityOutcome.feasible) ↔ (fs ≡ []))
      × ((outcome fs ≡ FeasibilityOutcome.capability_unknown) ↔ ((fs ≢ []) × (all_gaps fs ≡ true)))
      × ((outcome fs ≡ FeasibilityOutcome.blocked) ↔ (all_gaps fs ≡ false))
unfolding outcome
outcome_iff [] = (
  (λ h. refl, λ h. refl),
  (λ h. ground arith, λ h. ground arith),
  (λ h. ground arith, λ h. ground arith),
)
outcome_iff (f ∷ fs) = (
  (
    λ h. ground (arith, any-not-gap (f ∷ fs), any-gap f fs),
    λ h. ground (arith, any-not-gap (f ∷ fs), any-gap f fs),
  ),
  (
    λ h. ground (arith, any-not-gap (f ∷ fs), any-gap f fs),
    λ h. ground (arith, any-not-gap (f ∷ fs), any-gap f fs),
  ),
  (
    λ h. ground (arith, any-not-gap (f ∷ fs), any-gap f fs),
    λ h. ground (arith, any-not-gap (f ∷ fs), any-gap f fs),
  ),
)
