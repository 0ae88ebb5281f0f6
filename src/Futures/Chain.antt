-- ===== src/Futures/Chain.antt =====
-- The list of the deques that wait for a future, while they link themselves to it.
use cilk_l.Prelude.{ℕ, suc, ◌≤◌, ◌<◌, ◌≡◌, Bool, true, false, Option, none, some}
use cilk_l.Futures.{
  Getter, idle, seen, ticketed, cleared, swapped, linked, suspended, resumed, late, passing, passed,
  late_done, waited, failed, System,
}

-- The deque has swapped the tail.
abbrev pub entered : Getter → Bool
entered idle = false
entered seen = false
entered ticketed = false
entered cleared = false
entered (swapped old) = true
entered linked = true
entered suspended = true
entered resumed = true
entered late = false
entered passing = false
entered (passed v) = false
entered (late_done v) = false
entered (waited v) = true
entered failed = false

-- What the link at `p` before deque `i` holds: nothing until `i` has linked it to its own.
abbrev pub Joined : Getter → ℕ → ℕ → Option ℕ → Type 0
Joined (swapped old) p i x = (old ≡ p) × (x ≡ none)
Joined _ p i x = x ≡ some i

pub record Chain (s : System) : Type 0 where
  pub head_idle : s.getter 0 ≡ idle
  pub slot_zero : s.slot 0 ≡ 0
  pub place_zero : s.place 0 ≡ 0
  pub place_slot : (k : ℕ) → k ≤ s.size → s.place (s.slot k) ≡ k
  pub slot_place :
      (i : ℕ)
      → entered (s.getter i) ≡ true
      → (s.slot (s.place i) ≡ i) × (0 < s.place i) × (s.place i ≤ s.size)
  pub entered_slot : (k : ℕ) → 0 < k → k ≤ s.size → entered (s.getter (s.slot k)) ≡ true
  pub clear_link : (i : ℕ) → s.getter i ≡ cleared → s.future.next i ≡ none
  pub last_link : s.future.next (s.slot s.size) ≡ none
  pub tail_at : s.future.tail ≡ s.slot s.size
  pub joined :
      (k : ℕ)
      → k < s.size
      → Joined (s.getter (s.slot (suc k))) (s.slot k) (s.slot (suc k)) (s.future.next (s.slot k))
