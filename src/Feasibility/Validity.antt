-- ===== src/Feasibility/Validity.antt =====
-- Merging valid requirements (src/mutiai/services/feasibility.py) gives valid ones: the validators of
-- src/mutiai/domain/feasibility.py never raise in `merge_requirements`.
use muti_ai.Prelude.{
  Bool, filter, String, ◌≡◌, refl, ap, ◌∙◌, true, false, not, ◌&&◌, ◌||◌, List, [], ◌∷◌, ◌++◌,
  arith, ◌==◌, string_eq, map, elem, is_some, Bool-cases, inl, inr,
}
use muti_ai.Feasibility.{
  OsFamily, OsFamily-discrete, os_family_eq, families_unique, WorkloadRequirements, all_unique,
  unique_items, is_valid_workload,
}
use muti_ai.Feasibility.Merge.{
  sorted_common, merged_os, setdefault, set_all, union, maximum, merge_requirements,
}

abbrev first_of : List (String × String) → List String
first_of d = map (λ e. e.0) d

elem-setdefault :
    (k key item : String) (d : List (String × String))
    → elem k (first_of (setdefault key item d)) ≡ (elem k (first_of d) || key == k)
unfolding setdefault
elem-setdefault k key item [] = ground arith
elem-setdefault k key item ((k', v) ∷ d) = ground (arith, elem-setdefault k key item d)

unique-setdefault :
    (key item : String) (d : List (String × String))
    → all_unique (first_of d) ≡ true
    → all_unique (first_of (setdefault key item d)) ≡ true
unfolding setdefault all_unique
unique-setdefault key item [] h = refl
unique-setdefault key item ((k, v) ∷ d) h = elim (Bool-cases (k == key)) [
  | inl same ↦ rw same h
  | inr other ↦
      rw other (ground (arith, unique-setdefault key item d, elem-setdefault k key item d))
]

elem-filter_family :
    (f : OsFamily) (p : OsFamily → Bool) (fs : List OsFamily)
    → elem f fs ≡ false
    → elem f (filter p fs) ≡ false
elem-filter_family f p [] h = refl
elem-filter_family f p (g ∷ fs) h = ground (arith, elem-filter_family f p fs)

families_unique-filter :
    (p : OsFamily → Bool) (fs : List OsFamily)
    → families_unique fs ≡ true
    → families_unique (filter p fs) ≡ true
unfolding families_unique
families_unique-filter p [] h = refl
families_unique-filter p (f ∷ fs) h =
    ground (arith, families_unique-filter p fs, elem-filter_family f p fs)

families_unique-sorted_common :
    (first second : List OsFamily) → families_unique (sorted_common first second) ≡ true
unfolding sorted_common families_unique OsFamily-discrete
families_unique-sorted_common first second =
    families_unique-filter (λ f. elem f first && elem f second)
      (OsFamily.linux ∷ OsFamily.macos ∷ OsFamily.unknown ∷ OsFamily.windows ∷ []) refl

module _ (casefold : String → String) where
  -- Every entry stands under its item's casefolded text.
  folded-setdefault :
      (item : String) (d : List (String × String))
      → map casefold (map (λ e. e.1) d) ≡ first_of d
      → map casefold (map (λ e. e.1) (setdefault (casefold item) item d))
        ≡ first_of (setdefault (casefold item) item d)
  unfolding setdefault
  folded-setdefault item [] h = refl
  folded-setdefault item ((k, v) ∷ d) h = elim (Bool-cases (k == casefold item)) [
    | inl same ↦ rw same h
    | inr other ↦
        let head : casefold v ≡ k = cc in
        let tail : map casefold (map (λ e. e.1) d) ≡ first_of d = cc in
        rw other (
          ap (λ l. casefold v ∷ l) (folded-setdefault item d tail)
          ∙ ap (λ x. x ∷ first_of (setdefault (casefold item) item d)) head)
  ]

  unique-set_all :
      (items : List String) (d : List (String × String))
      → map casefold (map (λ e. e.1) d) ≡ first_of d
      → all_unique (first_of d) ≡ true
      → all_unique (map casefold (map (λ e. e.1) (set_all casefold items d))) ≡ true
  unfolding set_all
  unique-set_all [] d h u = ap all_unique h ∙ u
  unique-set_all (item ∷ items) d h u =
      unique-set_all items (setdefault (casefold item) item d) (folded-setdefault item d h)
        (unique-setdefault (casefold item) item d u)

  unique_items-union :
      (left right : List String) → unique_items casefold (union casefold left right) ≡ true
  unfolding unique_items union all_unique
  unique_items-union left right = unique-set_all (left ++ right) [] refl refl

  families_unique-merged_os :
      (first second : List OsFamily)
      → families_unique first ≡ true
      → families_unique second ≡ true
      → families_unique (merged_os first second) ≡ true
  unfolding merged_os
  families_unique-merged_os first second h h' =
      ground (arith, families_unique-sorted_common first second)

  maximum-gpu :
      (first second : WorkloadRequirements)
      → is_valid_workload casefold first ≡ true
      → is_valid_workload casefold second ≡ true
      → (is_some (maximum first.min_gpu_memory_mb second.min_gpu_memory_mb)
          && not (first.requires_gpu || second.requires_gpu))
        ≡ false
  unfolding is_valid_workload maximum
  maximum-gpu first second h h' = ground arith

  -- The merge of two valid requirements is valid: no family of operating systems is named twice, its
  -- inventories have no item twice, up to case, and it asks for GPU memory only together with a GPU.
  pub is_valid_workload-merge_requirements :
      (first second : WorkloadRequirements)
      → is_valid_workload casefold first ≡ true
      → is_valid_workload casefold second ≡ true
      → is_valid_workload casefold (merge_requirements casefold first second).0 ≡ true
  unfolding is_valid_workload merge_requirements
  is_valid_workload-merge_requirements first second h h' = ground (
    arith,
    families_unique-merged_os first.os_families second.os_families,
    unique_items-union first.required_tools second.required_tools,
    unique_items-union first.required_external_services second.required_external_services,
    unique_items-union first.required_hardware second.required_hardware,
    unique_items-union first.required_proprietary_software second.required_proprietary_software,
    unique_items-union first.input_media_types second.input_media_types,
    unique_items-union first.output_media_types second.output_media_types,
    maximum-gpu first second h h',
  )
