-- ===== src/Prelude/Lists.antt =====
-- Lists over the native numbers, and the list tests of Python: `any`, `all`, `in`, `next`.
use Prim.Native.Nat.{ℕ, suc, ◌+◌, ◌≤◌}
use mathlib.Core.Path.{◌≡◌, refl, subst, ap}
use mathlib.Core.Bool.{Bool, true, false, ◌&&◌, ◌||◌}
use mathlib.Core.Option.{Option, none, some}
use mathlib.Core.List.{List, [], ◌∷◌, ◌++◌}
use mathlib.Core.Logic.{inl, inr}
use native.Mathlib.Omega.{arith}
use muti_ai.Prelude.Tests.{Bool-cases, if◌then◌else◌, Eq, ◌==◌}

module _ {ℓ} {A : Type ℓ} where
  abbrev pub length : List A → ℕ
  length [] = 0
  length (x ∷ xs) = suc (length xs)

  -- `not xs`
  abbrev pub is_empty : List A → Bool
  is_empty [] = true
  is_empty (_ ∷ _) = false

  abbrev pub any : (A → Bool) → List A → Bool
  any p [] = false
  any p (x ∷ xs) = p x || any p xs

  abbrev pub all : (A → Bool) → List A → Bool
  all p [] = true
  all p (x ∷ xs) = p x && all p xs

  -- `next((x for x in xs if p(x)), None)`, and `session.scalar` of a filtered query.
  abbrev pub find? : (A → Bool) → List A → Option A
  find? p [] = none
  find? p (x ∷ xs) = if p x then some x else find? p xs

  -- `[x for x in xs if p(x)]`, and `session.scalars(…).all()`.
  abbrev pub filter : (A → Bool) → List A → List A
  filter p [] = []
  filter p (x ∷ xs) = if p x then x ∷ filter p xs else filter p xs

  abbrev pub All {κ} : (A → Type κ) → List A → Type κ
  All P [] = Unit
  All P (x ∷ xs) = P x × All P xs

  -- `x in xs`
  abbrev pub elem : ⦃e : Eq A⦄ → A → List A → Bool
  elem a [] = false
  elem a (x ∷ xs) = x == a || elem a xs

  pub length-append : (xs ys : List A) → length (xs ++ ys) ≡ length xs + length ys
  length-append [] ys = omega arith
  length-append (x ∷ xs) ys = omega (arith, length-append xs ys)

  -- Assigning to the row object that a query found: the first row that fits becomes `a`.
  unfoldable pub set_first : (A → Bool) → A → List A → List A
  set_first p a [] = []
  set_first p a (x ∷ xs) = if p x then a ∷ xs else x ∷ set_first p a xs

  pub find?-set_first :
      (p : A → Bool) (a : A) (xs : List A) (b : A)
      → find? p xs ≡ some b
      → p a ≡ true
      → find? p (set_first p a xs) ≡ some a
  unfolding set_first
  find?-set_first p a [] b h fits = cc
  find?-set_first p a (x ∷ xs) b h fits = ground (arith, find?-set_first p a xs b)

  pub find?-fits : (p : A → Bool) (xs : List A) (b : A) → find? p xs ≡ some b → p b ≡ true
  find?-fits p [] b h = cc
  find?-fits p (x ∷ xs) b h = ground (arith, find?-fits p xs b)

  -- A write to a row that `q` does not look at.
  pub find?-set_first_other :
      (p q : A → Bool) (a : A) (xs : List A)
      → ((x : A) → p x ≡ true → q x ≡ false)
      → q a ≡ false
      → find? q (set_first p a xs) ≡ find? q xs
  unfolding set_first
  find?-set_first_other p q a [] apart h = refl
  find?-set_first_other p q a (x ∷ xs) apart h =
      ground (arith, apart x, find?-set_first_other p q a xs apart h)

  pub find?-append_other :
      (q : A → Bool) (a : A) (xs : List A) → q a ≡ false → find? q (xs ++ a ∷ []) ≡ find? q xs
  find?-append_other q a [] h = ground arith
  find?-append_other q a (x ∷ xs) h = ground (arith, find?-append_other q a xs h)

  pub All-set_first {κ} :
      (P : A → Type κ) (p : A → Bool) (a : A) (xs : List A)
      → P a
      → All P xs
      → All P (set_first p a xs)
  unfolding set_first
  All-set_first P p a [] h all = tt
  All-set_first P p a (x ∷ xs) h all =
      elim (p x) as (λ b. All P (if b then a ∷ xs else x ∷ set_first p a xs)) [
        | true ↦ (h, all.1)
        | false ↦ (all.0, All-set_first P p a xs h all.1)
      ]

  pub All-append_one {κ} :
      (P : A → Type κ) (a : A) (xs : List A) → P a → All P xs → All P (xs ++ a ∷ [])
  All-append_one P a [] h all = (h, tt)
  All-append_one P a (x ∷ xs) h all = (all.0, All-append_one P a xs h all.1)

  pub All-find? {κ} :
      (P : A → Type κ) (p : A → Bool) (xs : List A) (b : A) → All P xs → find? p xs ≡ some b → P b
  All-find? P p [] b all h = cc
  All-find? P p (x ∷ xs) b all h = elim (Bool-cases (p x)) [
    | inl e ↦ subst P (ground arith) all.0
    | inr e ↦ All-find? P p xs b all.1 (ground arith)
  ]

  -- The sum of `f` over a list.
  unfoldable pub sum : (A → ℕ) → List A → ℕ
  sum f [] = 0
  sum f (x ∷ xs) = f x + sum f xs

  pub le-sum :
      (f : A → ℕ) (p : A → Bool) (xs : List A) (b : A) → find? p xs ≡ some b → f b ≤ sum f xs
  unfolding sum
  le-sum f p [] b h = cc
  le-sum f p (x ∷ xs) b h = ground (arith, le-sum f p xs b)

  pub sum-set_first :
      (f : A → ℕ) (p : A → Bool) (a : A) (xs : List A) (b : A)
      → find? p xs ≡ some b
      → sum f (set_first p a xs) + f b ≡ sum f xs + f a
  unfolding sum set_first
  sum-set_first f p a [] b h = cc
  sum-set_first f p a (x ∷ xs) b h = ground (arith, sum-set_first f p a xs b)

  pub find?-append :
      (p : A → Bool) (xs : List A) (a : A)
      → find? p xs ≡ none
      → p a ≡ true
      → find? p (xs ++ a ∷ []) ≡ some a
  find?-append p [] a h fits = ground arith
  find?-append p (x ∷ xs) a h fits = ground (arith, find?-append p xs a)

  pub All-map {κ μ} :
      (P : A → Type κ) (Q : A → Type μ) (xs : List A) → ((x : A) → P x → Q x) → All P xs → All Q xs
  All-map P Q [] f h = tt
  All-map P Q (x ∷ xs) f h = (f x h.0, All-map P Q xs f h.1)

  -- `UPDATE … WHERE p`, and the loop that changes the entries that fit.
  abbrev pub update_where : (A → Bool) → (A → A) → List A → List A
  update_where p f [] = []
  update_where p f (x ∷ xs) = (if p x then f x else x) ∷ update_where p f xs

  pub All-update_where {κ μ} :
      (P : A → Type κ) (Q : A → Type μ) (p : A → Bool) (f : A → A) (xs : List A)
      → ((x : A) → p x ≡ true → P x → Q (f x))
      → ((x : A) → p x ≡ false → P x → Q x)
      → All P xs
      → All Q (update_where p f xs)
  All-update_where P Q p f [] hit miss h = tt
  All-update_where P Q p f (x ∷ xs) hit miss h =
      let rest = All-update_where P Q p f xs hit miss h.1 in
      elim (Bool-cases (p x)) [
        | inl e ↦ rw e (hit x e h.0, rest)
        | inr e ↦ rw e (miss x e h.0, rest)
      ]

  pub All-filter {κ μ} :
      (P : A → Type κ) (Q : A → Type μ) (p : A → Bool) (xs : List A)
      → ((x : A) → p x ≡ true → P x → Q x)
      → All P xs
      → All Q (filter p xs)
  All-filter P Q p [] f h = tt
  All-filter P Q p (x ∷ xs) f h =
      let rest = All-filter P Q p xs f h.1 in
      elim (Bool-cases (p x)) [ inl e ↦ rw e (f x e h.0, rest) | inr e ↦ rw e rest ]

  pub find?-append_left :
      (p : A → Bool) (xs ys : List A) (b : A) → find? p xs ≡ some b → find? p (xs ++ ys) ≡ some b
  find?-append_left p [] ys b h = cc
  find?-append_left p (x ∷ xs) ys b h = ground (arith, find?-append_left p xs ys b)

  -- The row that a query finds, updated with all rows of its key, is found again.
  pub find?-update_where :
      (p q : A → Bool) (a : A) (xs : List A) (b : A)
      → find? p xs ≡ some b
      → q b ≡ true
      → p a ≡ true
      → find? p (update_where q (λ _. a) xs) ≡ some a
  find?-update_where p q a [] b h hit fits = cc
  find?-update_where p q a (x ∷ xs) b h hit fits = ground (arith, find?-update_where p q a xs b)

  pub All-split {κ} : (P : A → Type κ) (xs ys : List A) → All P (xs ++ ys) → All P xs × All P ys
  All-split P [] ys h = (tt, h)
  All-split P (x ∷ xs) ys h = let (front, back) = All-split P xs ys h.1 in ((h.0, front), back)

  pub All-both {κ μ} :
      (P : A → Type κ) (Q : A → Type μ) (xs : List A)
      → All P xs
      → All Q xs
      → All (λ x. P x × Q x) xs
  All-both P Q [] h k = tt
  All-both P Q (x ∷ xs) h k = ((h.0, k.0), All-both P Q xs h.1 k.1)

  -- What holds of every element holds of all, and the other way round.
  pub All-of_elem {κ} :
      ⦃e : Eq A⦄ (P : A → Type κ) (xs : List A) → ((x : A) → elem x xs ≡ true → P x) → All P xs
  All-of_elem P [] h = tt
  All-of_elem P (x ∷ xs) h = (h x (ground arith), All-of_elem P xs (λ y inside. h y (ground arith)))

  pub elem-All {κ} :
      ⦃e : Eq A⦄ (P : A → Type κ) (xs : List A) (x : A) → All P xs → elem x xs ≡ true → P x
  elem-All P [] x h inside = cc
  elem-All P (y ∷ xs) x h inside = elim (Bool-cases (y == x)) [
    | inl same ↦ let path : y ≡ x = ground arith in subst P path h.0
    | inr other ↦ elem-All P xs x h.1 (ground arith)
  ]

  pub append-snoc : (xs : List A) (y : A) (ys : List A) → (xs ++ y ∷ []) ++ ys ≡ xs ++ y ∷ ys
  append-snoc [] y ys = refl
  append-snoc (x ∷ xs) y ys = ap (λ l. x ∷ l) (append-snoc xs y ys)

  pub append-nil : (xs : List A) → xs ++ [] ≡ xs
  append-nil [] = refl
  append-nil (x ∷ xs) = ap (λ l. x ∷ l) (append-nil xs)
