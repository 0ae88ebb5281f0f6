-- ===== src/Deque/Sequential.antt =====
-- The deque's operations one after the other, with no thread in between: cilk-l/runtime/deque.c and
-- the two calls of cilk-abi.c that use its tail.
use cilk_l.Prelude.{
  ℕ, ◌+◌, ◌≤◌, ◌<◌, ◌≡◌, refl, true, false, Option, none, some, List, [], ◌∷◌, arith, if◌then◌else◌,
  update, length,
}
use cilk_l.Deque.{
  Deque, at, deque_init, can_take_fiber_from, can_steal_from, dekker_protocol, detach_head, detach,
  undo_detach, exception_check,
}

-- While `exc` is a slot, `dekker_protocol` answers exactly when the head is below both `tail` and
-- `protected_tail`. A positive answer has raised `exc` by one slot and changed nothing else; after a
-- negative one the deque is as it was.
pub dekker_protocol_lem :
    (d : Deque) (e : ℕ)
    → d.exc ≡ at e
    → dekker_protocol d
      ≡ (if can_steal_from d then (true, record d { exc = at (e + 1) }) else (false, d))
unfolding dekker_protocol
dekker_protocol_lem d e h = ground arith

-- If no thief has come between (`exc` is at most the `tail` that the frame was pushed at), a frame
-- that is detached is undone with no exception check, and the pointers are as they were.
pub undo_detach-detach :
    (d : Deque) {d' : Deque} (sf e : ℕ)
    → d.exc ≡ at e
    → e ≤ d.tail
    → detach sf d ≡ some d'
    → undo_detach d' ≡ (false, record d { slots = update d.slots d.tail sf })
unfolding detach undo_detach
undo_detach-detach d sf e h le p = ground arith

-- If the only ready frame is detached by the owner and stolen by a thief, the thief gets that frame,
-- and the owner's undo calls the exception check, which finds the frame stolen and leaves the deque
-- empty, with `exc` at the head.
pub steal_last :
    (d : Deque) {d₁ d₂ d₃ : Deque} (sf loot : ℕ)
    → d.head ≡ d.tail
    → d.exc ≡ at d.head
    → detach sf d ≡ some d₁
    → dekker_protocol d₁ ≡ (true, d₂)
    → detach_head d₂ ≡ some (loot, d₃)
    → let (alarm, d₄) = undo_detach d₃ in
      let (gone, d₅) = exception_check d₄ in
      (loot ≡ sf)
      × (alarm ≡ true)
      × (gone ≡ true)
      × (d₅.tail ≡ d₅.head)
      × (d₅.exc ≡ at d₅.head)
      × (d₅.head ≡ d.head + 1)
unfolding detach dekker_protocol detach_head undo_detach exception_check
steal_last d sf loot he hx p q r =
    (ground arith, ground arith, ground arith, ground arith, ground arith, ground arith)

-- If two frames are ready and the older one is stolen, the owner's undo of the younger one succeeds,
-- by itself or after the exception check, and the frame is back with the owner.
pub steal_older :
    (d : Deque) {d₁ d₂ d₃ : Deque} (sf loot : ℕ)
    → d.head < d.tail
    → d.exc ≡ at d.head
    → detach sf d ≡ some d₁
    → dekker_protocol d₁ ≡ (true, d₂)
    → detach_head d₂ ≡ some (loot, d₃)
    → let (alarm, d₄) = undo_detach d₃ in
      (loot ≡ d.slots d.head)
      × (alarm ≡ false)
      × ((exception_check d₄).0 ≡ false)
      × (d₄.slots d₄.tail ≡ sf)
unfolding detach dekker_protocol detach_head undo_detach exception_check
steal_older d sf loot he hx p q r = (ground arith, ground arith, ground arith, ground arith)

-- Detach the frames of a list, the first one first.
pub detach_all : List ℕ → Deque → Option Deque
detach_all [] d = some d
detach_all (x ∷ xs) d = elim (detach x d) [ none ↦ none | some d' ↦ detach_all xs d' ]

detach_all-some :
    (xs : List ℕ) (d : Deque)
    → d.tail + length xs ≤ d.ltq_limit
    → (d' : Deque) × (detach_all xs d ≡ some d') × (d'.tail ≡ d.tail + length xs)
unfolding detach_all detach
detach_all-some [] d h = (d, refl, ground arith)
detach_all-some (x ∷ xs) d h =
    let r =
      detach_all-some xs (record d { slots = update d.slots d.tail x; tail = d.tail + 1 })
        (omega arith) in
    (r.0, ground arith, ground arith)

detach_all-none :
    (xs : List ℕ) (d : Deque)
    → d.tail ≤ d.ltq_limit
    → d.ltq_limit < d.tail + length xs
    → detach_all xs d ≡ none
unfolding detach_all detach
detach_all-none [] d le h = absurd (omega arith)
detach_all-none (x ∷ xs) d le h =
    ground
      (arith, detach_all-none xs (record d { slots = update d.slots d.tail x; tail = d.tail + 1 }))

-- A deque that `deque_init` makes has nothing to steal, neither frames nor fibers, and takes
-- exactly `ltqsize` frames: as many can be detached in a row, and one more fails the assertion.
pub deque_init_capacity :
    {d : Deque} (a b : Option ℕ) (m : ℕ → ℕ) (ltqsize : ℕ)
    → deque_init a b m ltqsize ≡ some d
    → (can_steal_from d ≡ false)
      × (can_take_fiber_from d ≡ false)
      × ((xs : List ℕ) → length xs ≤ ltqsize → (d' : Deque) × (detach_all xs d ≡ some d'))
      × ((xs : List ℕ) → ltqsize < length xs → detach_all xs d ≡ none)
unfolding deque_init can_steal_from can_take_fiber_from
deque_init_capacity none b m ltqsize e = absurd (ground arith)
deque_init_capacity (some a) none m ltqsize e = absurd (ground arith)
deque_init_capacity {d} (some a) (some b) m ltqsize e = (
  ground arith,
  ground arith,
  (λ xs h. let r = detach_all-some xs d (ground arith) in (r.0, r.1)),
  λ xs h. detach_all-none xs d (ground arith) (ground arith),
)
