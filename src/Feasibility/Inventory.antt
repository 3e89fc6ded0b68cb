-- ===== src/Feasibility/Inventory.antt =====
-- The union of required items (src/mutiai/services/feasibility.py) loses no item, up to case.
use muti_ai.Prelude.{
  String, ◌≡◌, refl, ap, ◌∙◌, subst, true, List, [], ◌∷◌, ◌++◌, arith, ◌==◌, string_eq, map, elem,
  All, Bool-cases, inl, inr, All-split,
}
use muti_ai.Feasibility.Merge.{setdefault, set_all, union}
use muti_ai.Feasibility.Satisfies.{Covers}

setdefault-All {κ} :
    (R : String → Type κ) (key item : String) (d : List (String × String))
    → All (λ e. R e.0) (setdefault key item d)
    → All (λ e. R e.0) d × R key
unfolding setdefault
setdefault-All R key item [] h = (tt, h.0)
setdefault-All R key item ((k, v) ∷ d) h = elim (Bool-cases (k == key)) [
  | inl same ↦
      let h' : All (λ e. R e.0) ((k, v) ∷ d) = rw same at h in
      let e : k ≡ key = ground arith in (h', subst R e h'.0)
  | inr other ↦
      let h' : All (λ e. R e.0) ((k, v) ∷ setdefault key item d) = rw other at h in
      let (rest, r) = setdefault-All R key item d h'.1 in ((h'.0, rest), r)
]

module _ (casefold : String → String) where
  set_all-All {κ} :
      (R : String → Type κ) (items : List String) (d : List (String × String))
      → All (λ e. R e.0) (set_all casefold items d)
      → All (λ e. R e.0) d × All (λ item. R (casefold item)) items
  unfolding set_all
  set_all-All R [] d h = (h, tt)
  set_all-All R (item ∷ items) d h =
      let (now, later) = set_all-All R items (setdefault (casefold item) item d) h in
      let (before, r) = setdefault-All R (casefold item) item d now in (before, (r, later))

  -- Every entry stands under the casefolded item.
  setdefault-keys :
      (item : String) (d : List (String × String))
      → All (λ e. e.0 ≡ casefold e.1) d
      → All (λ e. e.0 ≡ casefold e.1) (setdefault (casefold item) item d)
  unfolding setdefault
  setdefault-keys item [] h = (refl, tt)
  setdefault-keys item ((k, v) ∷ d) h = elim (Bool-cases (k == casefold item)) [
    | inl same ↦ rw same h
    | inr other ↦ rw other (h.0, setdefault-keys item d h.1)
  ]

  set_all-keys :
      (items : List String) (d : List (String × String))
      → All (λ e. e.0 ≡ casefold e.1) d
      → All (λ e. e.0 ≡ casefold e.1) (set_all casefold items d)
  unfolding set_all
  set_all-keys [] d h = h
  set_all-keys (item ∷ items) d h =
      set_all-keys items (setdefault (casefold item) item d) (setdefault-keys item d h)

  keys_of_values :
      (available : List String) (d : List (String × String))
      → All (λ e. e.0 ≡ casefold e.1) d
      → Covers casefold (map (λ e. e.1) d) available
      → All (λ e. elem e.0 (map casefold available) ≡ true) d
  keys_of_values available [] keys h = tt
  keys_of_values available ((k, v) ∷ d) keys h = (
    ap (λ x. elem x (map casefold available)) keys.0 ∙ h.0,
    keys_of_values available d keys.1 h.1,
  )

  -- Where the union is available, so are both lists.
  pub union-Covers :
      (left right available : List String)
      → Covers casefold (union casefold left right) available
      → Covers casefold left available × Covers casefold right available
  unfolding union
  union-Covers left right available h =
      All-split (λ item. elem (casefold item) (map casefold available) ≡ true) left right
        (set_all-All (λ k. elem k (map casefold available) ≡ true) (left ++ right) []
          (keys_of_values available (set_all casefold (left ++ right) [])
            (set_all-keys (left ++ right) [] tt) h)).1
