-- ===== src/Deque.antt =====
-- The ready deque of cilk-l/runtime/deque.h and deque.c, with the two ends of the THE protocol: the
-- owner's `__cilkrts_detach` and `__cilkrts_undo_detach` of cilk-abi.c and the exception check of
-- scheduler.c, and the thief's `dekker_protocol` and `detach_for_steal`.
-- A pointer into `ltq` is the number of the slot that it points at, so pointer arithmetic and
-- pointer comparison are those of numbers. A stack frame is a number, and 0 is the null pointer.
pub mod Protocol
pub mod Sequential
mod Tests
use cilk_l.Prelude.{
  ℕ, ◌+◌, ◌-◌, Bool, true, false, not, ◌&&◌, Option, none, some, ltb, ◌==◌, if◌then◌else◌, update,
}

-- `exc` is a slot, or EXC_INFINITY, the pointer -1 above every slot.
pub data Exc : Type 0 where
  at : ℕ → Exc
  infinity : Exc

pub record Deque : Type 0 where
  pub ltq : ℕ
  pub ltq_limit : ℕ
  pub slots : ℕ → ℕ
  pub head : ℕ
  pub tail : ℕ
  pub exc : Exc
  pub protected_tail : ℕ
  pub fiber_ltq : ℕ
  pub fiber_ltq_limit : ℕ
  pub fiber_head : ℕ
  pub fiber_tail : ℕ
  pub fiber_protected_tail : ℕ

-- `t < exc`
abbrev pub lt_exc : ℕ → Exc → Bool
lt_exc t (at e) = ltb t e
lt_exc t infinity = true

-- The two arguments are what the two calls of `__cilkrts_malloc` return; `none` is the result -1.
-- What the slots hold at first is what the memory held, `slots`.
unfoldable pub deque_init : Option ℕ → Option ℕ → (ℕ → ℕ) → ℕ → Option Deque
deque_init none _ slots ltqsize = none
deque_init (some ltq) none slots ltqsize = none
deque_init (some ltq) (some fiber_ltq) slots ltqsize = some (record {
  ltq = ltq;
  ltq_limit = ltq + ltqsize;
  slots = slots;
  head = ltq;
  tail = ltq;
  exc = at ltq;
  protected_tail = ltq + ltqsize;
  fiber_ltq = fiber_ltq;
  fiber_ltq_limit = fiber_ltq + ltqsize;
  fiber_head = fiber_ltq;
  fiber_tail = fiber_ltq;
  fiber_protected_tail = fiber_ltq + ltqsize;
})

unfoldable pub can_take_fiber_from : Deque → Bool
can_take_fiber_from d = ltb d.fiber_head d.fiber_tail && ltb d.fiber_head d.fiber_protected_tail

unfoldable pub increment_E : Deque → Deque
increment_E d = elim d.exc [ at e ↦ record d { exc = at (e + 1) } | infinity ↦ d ]

unfoldable pub decrement_E : Deque → Deque
decrement_E d = elim d.exc [ at e ↦ record d { exc = at (e - 1) } | infinity ↦ d ]

unfoldable pub reset_the_exception : Deque → Deque
reset_the_exception d = record d { exc = at d.head }

unfoldable pub can_steal_from : Deque → Bool
can_steal_from d = ltb d.head d.tail && ltb d.head d.protected_tail

-- The result, and the deque that the call leaves.
unfoldable pub dekker_protocol : Deque → Bool × Deque
unfolding increment_E decrement_E can_steal_from
dekker_protocol d =
    let d' = increment_E d in if can_steal_from d' then (true, d') else (false, decrement_E d')

-- What `detach_for_steal` does to the deque: it takes the frame at the head. `none` is the failed
-- assertion that there is one.
unfoldable pub detach_head : Deque → Option (ℕ × Deque)
detach_head d =
    let sf = d.slots d.head in if sf == 0 then none else some (sf, record d { head = d.head + 1 })

-- The store of the parent's frame, `*tail = parent`, after the assertion that there is room.
unfoldable pub store_parent : ℕ → Deque → Option Deque
store_parent parent d =
    if ltb d.tail d.ltq_limit
    then some (record d { slots = update d.slots d.tail parent })
    else none

-- `*w->tail = tail` of `__cilkrts_detach`, with `tail` advanced.
unfoldable pub advance_tail : Deque → Deque
advance_tail d = record d { tail = d.tail + 1 }

unfoldable pub detach : ℕ → Deque → Option Deque
unfolding store_parent advance_tail
detach parent d = elim (store_parent parent d) [ none ↦ none | some d' ↦ some (advance_tail d') ]

-- The first half of `__cilkrts_undo_detach`.
unfoldable pub retract_tail : Deque → Deque
retract_tail d = record d { tail = d.tail - 1 }

-- True if the exception check must be called.
unfoldable pub undo_detach : Deque → Bool × Deque
unfolding retract_tail
undo_detach d = let d' = retract_tail d in (lt_exc d'.tail d'.exc, d')

-- `stolen_p` of `__cilkrts_c_THE_exception_check`, and the decrement of `tail` that it reverses.
unfoldable pub stolen_p : Deque → Bool
stolen_p d = not (ltb d.head (d.tail + 1))

unfoldable pub settle : Deque → Bool × Deque
unfolding stolen_p
settle d = if stolen_p d then (true, record d { tail = d.tail + 1 }) else (false, d)

unfoldable pub exception_check : Deque → Bool × Deque
unfolding reset_the_exception settle
exception_check d = settle (reset_the_exception d)
