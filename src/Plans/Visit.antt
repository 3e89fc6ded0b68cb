-- ===== src/Plans/Visit.antt =====
-- What the loop over the children of a step (src/mutiai/domain/task_plan.py) does to the degrees and
-- the queue.
use muti_ai.Prelude.{
  ℕ, ◌-◌, String, ◌≡◌, refl, true, false, not, ◌&&◌, ◌||◌, List, [], ◌∷◌, ◌++◌, arith,
  if◌then◌else◌, ◌==◌, string_eq, nat_eq, elem,
}
use muti_ai.Feasibility.{all_unique}
use muti_ai.Plans.Graph.{visit, decrement}

pub elem-snoc : (k x : String) (xs : List String) → elem k (xs ++ x ∷ []) ≡ (elem k xs || x == k)
elem-snoc k x [] = ground arith
elem-snoc k x (y ∷ xs) = ground (arith, elem-snoc k x xs)

pub unique-snoc :
    (x : String) (xs : List String) → all_unique (xs ++ x ∷ []) ≡ (all_unique xs && not (elem x xs))
unfolding all_unique
unique-snoc x [] = refl
unique-snoc x (y ∷ xs) = ground (arith, unique-snoc x xs, elem-snoc y x xs)

pub visit-degrees :
    (cs : List String) (d : String → ℕ) (q : List String) (j : String)
    → all_unique cs ≡ true
    → (visit cs d q).0 j ≡ (if elem j cs then d j - 1 else d j)
unfolding visit all_unique
visit-degrees [] d q j u = refl
visit-degrees (c ∷ cs) d q j u =
    ground
      (arith, visit-degrees cs (decrement c d) (if decrement c d c == 0 then q ++ c ∷ [] else q) j)

pub visit-queue :
    (cs : List String) (d : String → ℕ) (q : List String) (j : String)
    → all_unique cs ≡ true
    → elem j (visit cs d q).1 ≡ (elem j q || (elem j cs && d j - 1 == 0))
unfolding visit all_unique
visit-queue [] d q j u = ground arith
visit-queue (c ∷ cs) d q j u = ground (
  arith,
  visit-queue cs (decrement c d) (if decrement c d c == 0 then q ++ c ∷ [] else q) j,
  elem-snoc j c q,
)

-- A key is put into the queue once, if the keys that come to degree 0 are not in it yet.
pub visit_unique :
    (cs : List String) (d : String → ℕ) (q : List String)
    → all_unique cs ≡ true
    → all_unique q ≡ true
    → ((j : String) → elem j cs ≡ true → (d j - 1 == 0) ≡ true → elem j q ≡ false)
    → all_unique (visit cs d q).1 ≡ true
unfolding visit
visit_unique [] d q u once off = once
visit_unique (c ∷ cs) d q u once off =
    visit_unique cs (decrement c d) (if decrement c d c == 0 then q ++ c ∷ [] else q)
      (unfold all_unique in ground arith) (ground (arith, unique-snoc c q, off c))
      (λ j inside last. unfold all_unique in ground (arith, off j, elem-snoc j c q))
