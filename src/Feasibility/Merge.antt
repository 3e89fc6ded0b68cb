-- ===== src/Feasibility/Merge.antt =====
-- `infer_policy_requirements` and `merge_requirements` (src/mutiai/services/feasibility.py).
use text.Mathlib.Text.{find? as find_text}
use muti_ai.Prelude.{
  is_empty, ℕ, String, Bool, false, not, ◌&&◌, ◌||◌, Option, none, some, List, [], ◌∷◌, ◌++◌, max,
  if◌then◌else◌, ltb, ◌==◌, string_eq, map, elem, filter, any, is_some,
}
use muti_ai.Feasibility.{OsFamily, os_family_eq, CapacityClass, WorkloadRequirements}
use muti_ai.Feasibility.Findings.{capacity_rank}

abbrev pub windows_markers : List String
windows_markers =
    "windows" ∷ "win32" ∷ "powershell" ∷ "wpf" ∷ "winui" ∷ "windows registry" ∷ "注册表"
    ∷ "com automation" ∷ []

abbrev pub gui_markers : List String
gui_markers = "windows gui" ∷ "desktop gui" ∷ "desktop application" ∷ "图形界面" ∷ "桌面界面" ∷ "鼠标点击" ∷ []

abbrev pub heavy_markers : List String
heavy_markers =
    "video editing" ∷ "edit video" ∷ "edit and render" ∷ "render long video" ∷ "video render"
    ∷ "video transcoding" ∷ "3d rendering" ∷ "model training" ∷ "train a model" ∷ "视频剪辑" ∷ "剪辑视频"
    ∷ "视频渲染" ∷ "视频转码" ∷ "三维渲染" ∷ "3d 渲染" ∷ "模型训练" ∷ "训练模型" ∷ []

abbrev pub gpu_markers : List String
gpu_markers =
    "cuda" ∷ "gpu required" ∷ "requires gpu" ∷ "stable diffusion" ∷ "3d rendering"
    ∷ "model training" ∷ "必须使用 gpu" ∷ "需要 gpu" ∷ "三维渲染" ∷ "3d 渲染" ∷ "模型训练" ∷ []

-- `marker in normalized`
unfoldable pub mentions : String → List String → Bool
mentions normalized markers = any (λ marker. is_some (find_text normalized marker)) markers

-- `set(first) & set(second)`, sorted: the texts of the families in alphabetical order.
unfoldable pub sorted_common : List OsFamily → List OsFamily → List OsFamily
sorted_common first second =
    filter (λ f. elem f first && elem f second)
      (OsFamily.linux ∷ OsFamily.macos ∷ OsFamily.unknown ∷ OsFamily.windows ∷ [])

unfoldable pub os_conflict : List OsFamily → List OsFamily → Bool
os_conflict first second =
    not (is_empty first) && (not (is_empty second) && is_empty (sorted_common first second))

unfoldable pub merged_os : List OsFamily → List OsFamily → List OsFamily
merged_os first second =
    if not (is_empty first) && not (is_empty second)
    then sorted_common first second
    else if is_empty first
    then second
    else first

-- `max((first, second), key=rank)`: the first one of the largest.
unfoldable pub max_capacity : CapacityClass → CapacityClass → CapacityClass
max_capacity first second =
    if ltb (capacity_rank first) (capacity_rank second) then second else first

unfoldable pub maximum : Option ℕ → Option ℕ → Option ℕ
maximum none right = right
maximum (some l) none = some l
maximum (some l) (some r) = some (max l r)

-- `values.setdefault(key, item)` on a dict in insertion order.
unfoldable pub setdefault : (key item : String) → List (String × String) → List (String × String)
setdefault key item [] = (key, item) ∷ []
setdefault key item ((k, v) ∷ d) = if k == key then (k, v) ∷ d else (k, v) ∷ setdefault key item d

module _ (casefold : String → String) where
  unfoldable pub set_all : List String → List (String × String) → List (String × String)
  set_all [] d = d
  set_all (item ∷ items) d = set_all items (setdefault (casefold item) item d)

  unfoldable pub union : List String → List String → List String
  union left right = map (λ e. e.1) (set_all (left ++ right) [])

  unfoldable pub infer_policy_requirements : String → WorkloadRequirements
  infer_policy_requirements text =
      let normalized = casefold text in
      let resource_intensive = mentions normalized heavy_markers in
      record {
        schema_version = "1.0";
        os_families = if mentions normalized windows_markers then OsFamily.windows ∷ [] else [];
        requires_gui = mentions normalized gui_markers;
        requires_gpu = mentions normalized gpu_markers;
        min_gpu_memory_mb = none;
        min_cpu_capacity = if resource_intensive then CapacityClass.heavy else CapacityClass.light;
        min_memory_mb = none;
        required_tools = [];
        requires_network = false;
        required_external_services = [];
        required_hardware = [];
        required_proprietary_software = [];
        input_media_types = [];
        output_media_types = [];
        estimated_duration_seconds = none;
        estimated_input_size_bytes = none;
        resource_intensive = resource_intensive;
      }

  unfoldable pub merge_requirements :
      WorkloadRequirements → WorkloadRequirements → WorkloadRequirements × Bool
  merge_requirements first second = (
    record {
      schema_version = "1.0";
      os_families = merged_os first.os_families second.os_families;
      requires_gui = first.requires_gui || second.requires_gui;
      requires_gpu = first.requires_gpu || second.requires_gpu;
      min_gpu_memory_mb = maximum first.min_gpu_memory_mb second.min_gpu_memory_mb;
      min_cpu_capacity =
          if first.resource_intensive || second.resource_intensive
          then CapacityClass.heavy
          else max_capacity first.min_cpu_capacity second.min_cpu_capacity;
      min_memory_mb = maximum first.min_memory_mb second.min_memory_mb;
      required_tools = union first.required_tools second.required_tools;
      requires_network = first.requires_network || second.requires_network;
      required_external_services =
          union first.required_external_services second.required_external_services;
      required_hardware = union first.required_hardware second.required_hardware;
      required_proprietary_software =
          union first.required_proprietary_software second.required_proprietary_software;
      input_media_types = union first.input_media_types second.input_media_types;
      output_media_types = union first.output_media_types second.output_media_types;
      estimated_duration_seconds =
          maximum first.estimated_duration_seconds second.estimated_duration_seconds;
      estimated_input_size_bytes =
          maximum first.estimated_input_size_bytes second.estimated_input_size_bytes;
      resource_intensive = first.resource_intensive || second.resource_intensive;
    },
    os_conflict first.os_families second.os_families,
  )
