-- ===== src/Events/Sequence.antt =====
-- The numbers of a task's events, in the order in which the events were appended.
use muti_ai.Prelude.{
  ℕ, zero, suc, ◌+◌, max, String, ◌≡◌, refl, ap, ◌∙◌, Option, none, some, List, [], ◌∷◌, ◌++◌,
  arith, length, if◌then◌else◌, ◌==◌, string_eq, get_or, length-append,
}
use muti_ai.Models.Task.{Task, ProductEvent}
use muti_ai.Database.{Session, Draws}
use muti_ai.Events.{larger, TaskEvent, latest_sequence, new_event, append_task_event}

unfoldable pub sequences : String → List ProductEvent → List ℕ
sequences t [] = []
sequences t (e ∷ es) = if e.task_id == t then e.sequence ∷ sequences t es else sequences t es

-- 1, 2, …, n
unfoldable pub up_to : ℕ → List ℕ
up_to zero = []
up_to (suc n) = up_to n ++ suc n ∷ []

-- The events of every task carry the numbers 1, 2, … without a gap, in the order of the log.
pub record IsGapless (events : List ProductEvent) : Type 0 where
  pub numbered : (t : String) → sequences t events ≡ up_to (length (sequences t events))

sequences-append :
    (t : String) (es : List ProductEvent) (e : ProductEvent)
    → sequences t (es ++ e ∷ [])
      ≡ (if e.task_id == t then sequences t es ++ e.sequence ∷ [] else sequences t es)
unfolding sequences
sequences-append t [] e = ground arith
sequences-append t (x ∷ es) e = ground (arith, sequences-append t es e)

-- The largest entry of a list, as SQL's `max` finds it.
largest : List ℕ → Option ℕ
largest [] = none
largest (n ∷ ns) = larger n (largest ns)

latest_sequence-eq-largest :
    (t : String) (es : List ProductEvent) → latest_sequence t es ≡ largest (sequences t es)
unfolding latest_sequence sequences largest
latest_sequence-eq-largest t [] = ground arith
latest_sequence-eq-largest t (e ∷ es) = ground (arith, latest_sequence-eq-largest t es)

get_or-larger : (n : ℕ) (o : Option ℕ) → get_or (larger n o) 0 ≡ max n (get_or o 0)
get_or-larger n none = omega arith
get_or-larger n (some m) = refl

largest-append :
    (ns : List ℕ) (n : ℕ) → get_or (largest (ns ++ n ∷ [])) 0 ≡ max (get_or (largest ns) 0) n
unfolding largest
largest-append [] n = omega arith
largest-append (m ∷ ns) n = omega (
  arith,
  get_or-larger m (largest ns),
  get_or-larger m (largest (ns ++ n ∷ [])),
  largest-append ns n,
)

largest-up_to : (n : ℕ) → get_or (largest (up_to n)) 0 ≡ n
unfolding up_to
largest-up_to zero = unfold largest in refl
largest-up_to (suc n) = omega (arith, largest-append (up_to n) (suc n), largest-up_to n)

next_up_to : (ns : List ℕ) (n x : ℕ) → ns ≡ up_to n → x ≡ suc n → ns ++ x ∷ [] ≡ up_to (suc n)
unfolding up_to
next_up_to ns n x h e = cc

-- The number after a gapless run is the next one.
up_to-append :
    (ns : List ℕ)
    → ns ≡ up_to (length ns)
    → ns ++ (get_or (largest ns) 0 + 1) ∷ []
      ≡ up_to (length (ns ++ (get_or (largest ns) 0 + 1) ∷ []))
up_to-append ns h =
    let last : get_or (largest ns) 0 ≡ length ns =
      ap (λ l. get_or (largest l) 0) h ∙ largest-up_to _ in
    rw (length-append ns ((get_or (largest ns) 0 + 1) ∷ [])) (
      next_up_to ns (length ns) (get_or (largest ns) 0 + 1) h (omega arith)
      ∙ ap up_to (omega arith))

-- Appending an event to a gapless log gives a gapless log: the event gets the number after the last
-- one of its task, and no other task's numbers change.
pub append_task_event-IsGapless :
    (draws : Draws) (task : Task) (e : TaskEvent) (s : Session)
    → IsGapless s.events
    → IsGapless (append_task_event draws task e s).events
unfolding append_task_event new_event
append_task_event-IsGapless draws task e s h = record {
  numbered = λ t. ground (
    arith,
    h.numbered t,
    sequences-append t s.events (new_event draws s.events task e),
    latest_sequence-eq-largest t s.events,
    up_to-append (sequences t s.events),
  );
}
