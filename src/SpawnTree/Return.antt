-- ===== src/SpawnTree/Return.antt =====
-- `finish_spawn_return_on_user_stack` of cilk-l/runtime/scheduler.c: a child leaves the spawn tree.
use cilk_l.Prelude.{ℕ, ◌≢◌, ◌⊎◌, List}
use cilk_l.SpawnTree.{Heap}
use cilk_l.SpawnTree.Family.{left_of}

-- The fiber of a child that is not the leftmost, or whose parent has one already, is to be freed.
unfoldable pub IsFreed : Heap → ℕ → List ℕ → Type 0
IsFreed h parent older = (left_of older ≢ 0) ⊎ ((h parent).fiber_child ≢ 0)
