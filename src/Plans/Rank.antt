-- ===== src/Plans/Rank.antt =====
-- Where a key stands in the order that `_assert_acyclic` (src/mutiai/domain/task_plan.py) builds.
use muti_ai.Prelude.{
  ℕ, suc, ◌+◌, ◌<◌, String, ◌≡◌, refl, true, false, not, List, [], ◌∷◌, ◌++◌, arith, if◌then◌else◌,
  ◌==◌, string_eq, filter, elem, length, All,
}
use muti_ai.Feasibility.{all_unique}
use muti_ai.Plans.Visit.{elem-snoc}

-- How many of `xs` are not in `o`.
abbrev pub missing : (o xs : List String) → ℕ
missing o xs = length (filter (λ x. not (elem x o)) xs)

pub missing-snoc :
    (o : List String) (k : String) (xs : List String)
    → all_unique xs ≡ true
    → elem k o ≡ false
    → missing o xs ≡ missing (o ++ k ∷ []) xs + (if elem k xs then 1 else 0)
unfolding all_unique
missing-snoc o k [] u new_ = refl
missing-snoc o k (x ∷ xs) u new_ = ground (arith, missing-snoc o k xs, elem-snoc x k o)

pub missing-nil : (xs : List String) → missing [] xs ≡ length xs
missing-nil [] = refl
missing-nil (x ∷ xs) = ground (arith, missing-nil xs)

pub missing-zero : (o xs : List String) → missing o xs ≡ 0 → All (λ x. elem x o ≡ true) xs
missing-zero o [] h = tt
missing-zero o (x ∷ xs) h = (ground arith, missing-zero o xs (ground arith))

pub zero-missing : (o xs : List String) → All (λ x. elem x o ≡ true) xs → missing o xs ≡ 0
zero-missing o [] h = refl
zero-missing o (x ∷ xs) h = ground (arith, zero-missing o xs)

-- The place of a key.
pub rank : List String → String → ℕ
rank [] j = 0
rank (x ∷ o) j = if x == j then 0 else suc (rank o j)

pub rank-snoc : (o : List String) (k j : String) → elem j o ≡ true → rank (o ++ k ∷ []) j ≡ rank o j
unfolding rank
rank-snoc [] k j h = cc
rank-snoc (x ∷ o) k j h = ground (arith, rank-snoc o k j)

pub rank-lt : (o : List String) (j : String) → elem j o ≡ true → rank o j < length o
unfolding rank
rank-lt [] j h = absurd (ground arith)
rank-lt (x ∷ o) j h = ground (arith, rank-lt o j)

pub rank-last : (o : List String) (k : String) → elem k o ≡ false → rank (o ++ k ∷ []) k ≡ length o
unfolding rank
rank-last [] k h = ground arith
rank-last (x ∷ o) k h = ground (arith, rank-last o k)
