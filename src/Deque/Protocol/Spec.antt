-- ===== src/Deque/Protocol/Spec.antt =====
-- What the THE protocol promises: the ready frames form a queue that the owner uses at one end and
-- the thieves at the other, each operation taking effect at once.
use cilk_l.Prelude.{ℕ, Option, none, some, List, [], ◌∷◌, ◌++◌, ◌==◌, if◌then◌else◌, pop_last}
use cilk_l.Deque.Protocol.{Event, pushed, popped, orphaned, stolen}

-- The queue after an event, the oldest frame first; `none` if the event is not possible. The owner
-- may find its frame gone only when no frame is left.
abbrev pub apply : Event → List ℕ → Option (List ℕ)
apply (pushed x) q = some (q ++ (x ∷ []))
apply (popped x) q = elim (pop_last q) [
  | none ↦ none
  | some (r, y) ↦ if x == y then some r else none
]
apply orphaned [] = some []
apply orphaned (y ∷ q) = none
apply (stolen x) [] = none
apply (stolen x) (y ∷ q) = if x == y then some q else none

-- The queue after a history, whose last event stands first.
abbrev pub replay : List Event → Option (List ℕ)
replay [] = some []
replay (e ∷ es) = elim (replay es) [ none ↦ none | some q ↦ apply e q ]
