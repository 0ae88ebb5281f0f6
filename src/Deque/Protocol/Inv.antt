-- ===== src/Deque/Protocol/Inv.antt =====
-- What holds of deque, locks and program counters between any two steps of the THE protocol.
use cilk_l.Prelude.{ℕ, ◌+◌, ◌-◌, ◌≤◌, ◌<◌, ◌≡◌, Bool, true, false, some, List, arith, window}
use cilk_l.Deque.{Deque, at}
use cilk_l.Deque.Protocol.{
  Owner, working, stored, undone, checking, locked, reset, unlocking, Lock, nobody, owner, thief,
  entered, announced, committed, retreating, leaving, System, Action, store, advance, undo,
  compare_exc, take_lock, reset_exc, decide, drop_lock, try_lock, announce, test, retreat, detach,
  leave, owner_step, thief_step,
}

-- By how much `exc` is above `head`.
abbrev pub raised : Lock → ℕ
raised nobody = 0
raised owner = 0
raised (thief i entered) = 0
raised (thief i announced) = 1
raised (thief i committed) = 1
raised (thief i retreating) = 1
raised (thief i leaving) = 0

-- Frames at `head` that a thief has won and not yet detached.
abbrev pub taken : Lock → ℕ
taken nobody = 0
taken owner = 0
taken (thief i entered) = 0
taken (thief i announced) = 0
taken (thief i committed) = 1
taken (thief i retreating) = 0
taken (thief i leaving) = 0

-- Frames at `tail` that the owner has taken back and not yet won or lost.
abbrev pub pending : Owner → ℕ
pending working = 0
pending (stored x) = 0
pending undone = 1
pending checking = 1
pending locked = 1
pending reset = 1
pending unlocking = 0

abbrev pub in_check : Owner → Bool
in_check locked = true
in_check reset = true
in_check unlocking = true
in_check working = false
in_check (stored x) = false
in_check undone = false
in_check checking = false

abbrev pub owned : Lock → Bool
owned owner = true
owned nobody = false
owned (thief i pc) = false

-- The store before `tail` is advanced.
abbrev pub Saved : Owner → Deque → Type 0
Saved (stored x) d = (d.slots d.tail ≡ x) × (d.tail < d.ltq_limit)
Saved working d = Unit {0}
Saved undone d = Unit {0}
Saved checking d = Unit {0}
Saved locked d = Unit {0}
Saved reset d = Unit {0}
Saved unlocking d = Unit {0}

-- The first slot whose frame is still ready, and the slot behind the last one.
abbrev pub first : System → ℕ
first s = s.deque.head + taken s.lock

abbrev pub past : System → ℕ
past s = s.deque.tail + pending s.pc

-- The ready frames, the oldest first.
abbrev pub contents : System → List ℕ
contents s = window s.deque.slots (first s) (past s - first s)

pub record Shape (s : System) : Type 0 where
  pub exc_at : s.deque.exc ≡ at (s.deque.head + raised s.lock)
  pub ordered : first s ≤ past s
  pub low : s.deque.ltq ≤ s.deque.head
  pub deep : s.deque.ltq + s.depth ≤ past s
  pub high : past s ≤ s.deque.ltq_limit
  pub undoing : pending s.pc ≤ s.depth
  pub excluded : in_check s.pc ≡ owned s.lock
  pub saved : Saved s.pc s.deque

-- What `deque_init` makes.
pub record IsFresh (d : Deque) : Type 0 where
  pub exc_at : d.exc ≡ at d.head
  pub head_at : d.head ≡ d.ltq
  pub tail_at : d.tail ≡ d.head
  pub room : d.ltq ≤ d.ltq_limit

pub owner_step-Shape : {s t : System} (a : Action) → owner_step a s ≡ some t → Shape s → Shape t
unfolding owner_step
owner_step-Shape (store x) e v = ground arith
owner_step-Shape advance e v = ground arith
owner_step-Shape undo e v = ground arith
owner_step-Shape compare_exc e v = ground arith
owner_step-Shape take_lock e v = ground arith
owner_step-Shape reset_exc e v = ground arith
owner_step-Shape decide e v = ground arith
owner_step-Shape drop_lock e v = ground arith
owner_step-Shape _ e v = ground arith

pub thief_step-Shape : {s t : System} (a : Action) → thief_step a s ≡ some t → Shape s → Shape t
unfolding thief_step
thief_step-Shape (try_lock i) e v = ground arith
thief_step-Shape announce e v = ground arith
thief_step-Shape test e v = ground arith
thief_step-Shape retreat e v = ground arith
thief_step-Shape detach e v = ground arith
thief_step-Shape leave e v = ground arith
thief_step-Shape _ e v = ground arith
