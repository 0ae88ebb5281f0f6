-- ===== src/Deque/Protocol.antt =====
-- The THE protocol between the owner of a deque and any number of thieves, as interleaved steps:
-- cilk-l/runtime/deque.c, the deque part of cilk-abi.c and of `__cilkrts_c_THE_exception_check`.
-- A step makes at most one access to a variable that another thread may write at the same time:
-- `tail` is written by the owner, `head` and `exc` only under the worker's lock. Memory is
-- sequentially consistent, as the fences of the code are there to ensure.
pub mod Spec
pub mod Inv
pub mod Linear
use cilk_l.Prelude.{
  ℕ, zero, suc, ◌+◌, ◌-◌, ◌≡◌, refl, Bool, true, false, Option, none, some, List, [], ◌∷◌, ltb, not,
  ◌==◌, if◌then◌else◌,
}
use cilk_l.Deque.{
  Deque, at, lt_exc, increment_E, decrement_E, reset_the_exception, can_steal_from, detach_head,
  store_parent, advance_tail, retract_tail, settle, deque_init,
}

-- What the owner and the thieves have done to the ready frames, in the order in which it took effect.
pub data Event : Type 0 where
  pushed : ℕ → Event
  popped : ℕ → Event
  orphaned : Event
  stolen : ℕ → Event

-- Where the owner stands. `undone` and what follows it are inside `__cilkrts_undo_detach` and the
-- exception check.
pub data Owner : Type 0 where
  working : Owner
  stored : ℕ → Owner
  undone : Owner
  checking : Owner
  locked : Owner
  reset : Owner
  unlocking : Owner

-- Where the thief that holds the lock stands.
pub data Thief : Type 0 where
  entered : Thief
  announced : Thief
  committed : Thief
  retreating : Thief
  leaving : Thief

-- The worker's lock: `thief i pc` while thief `i` holds it and stands at `pc`.
pub data Lock : Type 0 where
  nobody : Lock
  owner : Lock
  thief : ℕ → Thief → Lock

-- `depth` counts the detached frames that are still to be undone on this deque.
pub record System : Type 0 where
  pub deque : Deque
  pub pc : Owner
  pub lock : Lock
  pub depth : ℕ
  pub log : List Event

pub data Action : Type 0 where
  store : ℕ → Action
  advance : Action
  undo : Action
  compare_exc : Action
  take_lock : Action
  reset_exc : Action
  decide : Action
  drop_lock : Action
  try_lock : ℕ → Action
  announce : Action
  test : Action
  retreat : Action
  detach : Action
  leave : Action

-- The owner has seen that its frame's parent is still there.
abbrev win : System → Owner → System
win s pc = record s {
  pc = pc;
  depth = s.depth - 1;
  log = popped (s.deque.slots s.deque.tail) ∷ s.log;
}

-- `none` if the action is not possible in this state.
unfoldable pub owner_step : Action → System → Option System
unfolding store_parent advance_tail retract_tail reset_the_exception settle
owner_step (store x) s = elim s.pc [
  | working ↦ elim (store_parent x s.deque) [
    | none ↦ none
    | some d ↦ some (record s { deque = d; pc = stored x })
  ]
  | _ ↦ none
]
owner_step advance s = elim s.pc [
  | stored x ↦ some (record s {
    deque = advance_tail s.deque;
    pc = working;
    depth = s.depth + 1;
    log = pushed x ∷ s.log;
  })
  | _ ↦ none
]
owner_step undo s = elim s.pc [
  | working ↦
      if s.depth == 0 then none else some (record s { deque = retract_tail s.deque; pc = undone })
  | _ ↦ none
]
owner_step compare_exc s = elim s.pc [
  | undone ↦
      if lt_exc s.deque.tail s.deque.exc
      then some (record s { pc = checking })
      else some (win s working)
  | _ ↦ none
]
owner_step take_lock s = elim s.pc [
  | checking ↦ elim s.lock [ nobody ↦ some (record s { pc = locked; lock = owner }) | _ ↦ none ]
  | _ ↦ none
]
owner_step reset_exc s = elim s.pc [
  | locked ↦ some (record s { deque = reset_the_exception s.deque; pc = reset })
  | _ ↦ none
]
owner_step decide s = elim s.pc [
  | reset ↦
      let (gone, d) = settle s.deque in
      if gone
      then some (record s { deque = d; pc = unlocking; depth = 0; log = orphaned ∷ s.log })
      else some (win s unlocking)
  | _ ↦ none
]
owner_step drop_lock s = elim s.pc [
  | unlocking ↦ some (record s { pc = working; lock = nobody })
  | _ ↦ none
]
owner_step _ s = none

unfoldable pub thief_step : Action → System → Option System
unfolding increment_E decrement_E can_steal_from detach_head
thief_step (try_lock i) s = elim s.lock [
  | nobody ↦ some (record s { lock = thief i entered })
  | _ ↦ none
]
thief_step announce s = elim s.lock [
  | thief i pc ↦ elim pc [
    | entered ↦ some (record s { deque = increment_E s.deque; lock = thief i announced })
    | _ ↦ none
  ]
  | _ ↦ none
]
thief_step test s = elim s.lock [
  | thief i pc ↦ elim pc [
    | announced ↦
        if can_steal_from s.deque
        then some (record s {
          lock = thief i committed;
          log = stolen (s.deque.slots s.deque.head) ∷ s.log;
        })
        else some (record s { lock = thief i retreating })
    | _ ↦ none
  ]
  | _ ↦ none
]
thief_step retreat s = elim s.lock [
  | thief i pc ↦ elim pc [
    | retreating ↦ some (record s { deque = decrement_E s.deque; lock = thief i leaving })
    | _ ↦ none
  ]
  | _ ↦ none
]
thief_step detach s = elim s.lock [
  | thief i pc ↦ elim pc [
    | committed ↦ elim (detach_head s.deque) [
      | none ↦ none
      | some (sf, d) ↦ some (record s { deque = d; lock = thief i leaving })
    ]
    | _ ↦ none
  ]
  | _ ↦ none
]
thief_step leave s = elim s.lock [
  | thief i pc ↦ elim pc [
    | entered ↦ some (record s { lock = nobody })
    | leaving ↦ some (record s { lock = nobody })
    | _ ↦ none
  ]
  | _ ↦ none
]
thief_step _ s = none

-- The states that the owner and the thieves can bring a fresh deque of `ltqsize` slots to.
pub data Reach (d : Deque) : System → Type 0 where
  start : Reach d (record { deque = d; pc = working; lock = nobody; depth = 0; log = [] })
  by_owner : {s t : System} (a : Action) → Reach d s → owner_step a s ≡ some t → Reach d t
  by_thief : {s t : System} (a : Action) → Reach d s → thief_step a s ≡ some t → Reach d t
