-- ===== src/Keys.antt =====
-- Rows that are found by a text key, and keys that stand once.
use muti_ai.Prelude.{
  String, ◌≡◌, refl, Bool, true, false, Option, none, some, List, [], ◌∷◌, arith, ◌==◌, string_eq,
  find?, is_some, elem, map, All, filter, update_where,
}
use muti_ai.Feasibility.{all_unique}

module _ {ℓ} {A : Type ℓ} (key : A → String) where
  -- The row is the one that is found under its key.
  abbrev pub Found : List A → A → Type ℓ
  Found xs a = find? (λ x. key x == key a) xs ≡ some a

  pub found-elem :
      (k : String) (xs : List A) → is_some (find? (λ x. key x == k) xs) ≡ elem k (map key xs)
  found-elem k [] = refl
  found-elem k (x ∷ xs) = ground (arith, found-elem k xs)

  Found-skip :
      (r : A) (rows xs : List A)
      → elem (key r) (map key xs) ≡ false
      → All (Found rows) xs
      → All (Found (r ∷ rows)) xs
  Found-skip r rows [] off h = tt
  Found-skip r rows (x ∷ xs) off h = (ground arith, Found-skip r rows xs (ground arith) h.1)

  -- With distinct keys every row is found under its key.
  pub unique-Found : (xs : List A) → all_unique (map key xs) ≡ true → All (Found xs) xs
  unfolding all_unique
  unique-Found [] u = tt
  unique-Found (r ∷ xs) u =
      (ground arith, Found-skip r xs xs (ground arith) (unique-Found xs (ground arith)))

  elem-filter_none :
      (k : String) (p : A → Bool) (xs : List A)
      → elem k (map key xs) ≡ false
      → elem k (map key (filter p xs)) ≡ false
  elem-filter_none k p [] h = refl
  elem-filter_none k p (x ∷ xs) h = ground (arith, elem-filter_none k p xs)

  pub unique-filter :
      (p : A → Bool) (xs : List A)
      → all_unique (map key xs) ≡ true
      → all_unique (map key (filter p xs)) ≡ true
  unfolding all_unique
  unique-filter p [] u = refl
  unique-filter p (x ∷ xs) u = ground (arith, unique-filter p xs, elem-filter_none (key x) p xs)

  -- The test on the row of a key, if there is one.
  abbrev pub fits : (A → Bool) → Option A → Bool
  fits p none = false
  fits p (some a) = p a

  -- With distinct keys, a key is among those of a query exactly if its row fits.
  pub elem-filter :
      (k : String) (p : A → Bool) (xs : List A)
      → all_unique (map key xs) ≡ true
      → elem k (map key (filter p xs)) ≡ fits p (find? (λ x. key x == k) xs)
  unfolding all_unique
  elem-filter k p [] u = refl
  elem-filter k p (x ∷ xs) u = ground (arith, elem-filter k p xs, elem-filter_none k p xs)

  -- A write to the row of a key, read at that key and at another one.
  pub find?-update_key :
      (a b : A) (xs : List A)
      → find? (λ x. key x == key a) xs ≡ some b
      → find? (λ x. key x == key a) (update_where (λ x. key x == key a) (λ _. a) xs) ≡ some a
  find?-update_key a b [] h = cc
  find?-update_key a b (x ∷ xs) h = ground (arith, find?-update_key a b xs)

  pub find?-update_other_key :
      (k : String) (a : A) (xs : List A)
      → (key a == k) ≡ false
      → find? (λ x. key x == k) (update_where (λ x. key x == key a) (λ _. a) xs)
        ≡ find? (λ x. key x == k) xs
  find?-update_other_key k a [] h = refl
  find?-update_other_key k a (x ∷ xs) h = ground (arith, find?-update_other_key k a xs)
