-- ===== src/Deque/Tests.antt =====
-- Runs of the deque's operations and of the THE protocol on small inputs.
use cilk_l.Prelude.{ℕ, ◌+◌, ◌≤◌, ◌<◌, ◌≡◌, refl, some, List, [], ◌∷◌, update}
use cilk_l.Deque.{Deque, at, deque_init}
use cilk_l.Deque.Protocol
use cilk_l.Deque.Protocol.{
  System, Action, store, advance, undo, compare_exc, take_lock, reset_exc, decide, drop_lock,
  try_lock, announce, test, leave, owner_step, thief_step, stored, Reach, start, by_owner, by_thief,
  pushed, stolen, orphaned,
}
use cilk_l.Deque.Protocol.Spec.{replay}
use cilk_l.Deque.Protocol.Linear.{replay-log, Reach-bounds, pushes-eq-takes, pushes, takes}

abbrev memory : ℕ → ℕ
memory i = 0

abbrev fresh : Deque
fresh = record {
  ltq = 10;
  ltq_limit = 12;
  slots = memory;
  head = 10;
  tail = 10;
  exc = at 10;
  protected_tail = 12;
  fiber_ltq = 20;
  fiber_ltq_limit = 22;
  fiber_head = 20;
  fiber_tail = 20;
  fiber_protected_tail = 22;
}

made : deque_init (some 10) (some 20) memory 2 ≡ some fresh
unfolding deque_init
made = refl

-- One frame, 7.
abbrev one : Deque
one = record fresh { slots = update memory 10 7; tail = 11 }

-- Frames 7 and 8.
abbrev two : Deque
two = record fresh { slots = update (update memory 10 7) 11 8; tail = 12 }

abbrev raised : Deque
raised = record one { exc = at 11 }

abbrev robbed : Deque
robbed = record raised { head = 11 }

abbrev System_at : Deque → Protocol.Owner → Protocol.Lock → ℕ → List Protocol.Event → System
System_at d pc lock depth log = record { deque = d; pc = pc; lock = lock; depth = depth; log = log }

-- The owner pushes frame 7 and takes it back while thief 3 announces its steal: the owner must ask
-- for the lock, and the thief, which has seen the frame, keeps it.
contested : Reach fresh (
    System_at
      (record raised { tail = 10 })
      Protocol.checking
      (Protocol.thief 3 Protocol.committed)
      1
      (stolen 7 ∷ pushed 7 ∷ []))
unfolding owner_step thief_step
contested =
    by_owner compare_exc
      (by_owner undo
        (by_thief test
          (by_thief announce
            (by_thief (try_lock 3) (by_owner advance (by_owner (store 7) start refl) refl) refl)
            refl)
          refl)
        refl)
      refl

-- The end of the same run: the owner has found its frame stolen.
lost : Reach fresh (
    System_at
      (record robbed { exc = at 11 })
      Protocol.unlocking
      Protocol.owner
      0
      (orphaned ∷ stolen 7 ∷ pushed 7 ∷ []))
unfolding owner_step thief_step
lost =
    by_owner decide
      (by_owner reset_exc
        (by_owner take_lock (by_thief leave (by_thief Action.detach contested refl) refl) refl)
        refl)
      refl

replay-log_example : replay (stolen 7 ∷ pushed 7 ∷ []) ≡ some []
unfolding deque_init
replay-log_example = replay-log (some 10) (some 20) memory 2 refl contested

Reach-bounds_example :
    (10 ≤ 11)
    × (10 ≤ 11)
    × (11 ≤ 12)
    × (11 ≤ 11 + 1)
    × ((x : ℕ) → Protocol.unlocking ≡ stored x → 11 < 12)
unfolding deque_init
Reach-bounds_example = Reach-bounds (some 10) (some 20) memory 2 refl lost

pushes-eq-takes_example :
    pushes 7 (orphaned ∷ stolen 7 ∷ pushed 7 ∷ [])
    ≡ takes 7 (orphaned ∷ stolen 7 ∷ pushed 7 ∷ []) + 0
unfolding deque_init
pushes-eq-takes_example = pushes-eq-takes (some 10) (some 20) memory 2 refl lost 7
