-- ===== src/Idle/Tree.antt =====
-- The tree of system workers that messages run down: `notify_children` of cilk-l/runtime/scheduler.c.
use cilk_l.Prelude.{ℕ, zero, suc, ◌<◌, ◌≡◌, Option, none, some, ltb, if◌then◌else◌, ◌&&◌}
use cilk_l.Idle.{SignalNode, signal_node_msg, notify_children}

-- Workers 1 to `k` notify their children, one after the other.
pub wave : ℕ → ℕ → ℕ → (ℕ → Option SignalNode) → Option (ℕ → Option SignalNode)
wave p zero msg nodes = some nodes
wave p (suc k) msg nodes = elim (wave p k msg nodes) [
  | none ↦ none
  | some nodes' ↦ notify_children p (suc k) msg nodes'
]

-- What worker `c` has once workers 2 to `n - 1` have been told: `f` is what the message does.
told : (SignalNode → SignalNode) → (ℕ → SignalNode) → ℕ → ℕ → SignalNode
told f base n c = if ltb 1 c && ltb c n then f (base c) else base c

module _ (p msg : ℕ) (f : SignalNode → SignalNode) (base : ℕ → SignalNode)
    (does : (node : SignalNode) → signal_node_msg msg node ≡ some (f node)) where
  -- The nodes where workers 2 to `n - 1` have been told.
  Told : ℕ → (ℕ → Option SignalNode) → Type 0
  Told n nodes = (c : ℕ) → c < p → nodes c ≡ some (told f base n c)
