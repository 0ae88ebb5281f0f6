-- ===== src/SpawnTree/Stacks.antt =====
-- The saved stack pointer and the join counter of a full frame: cilk-l/runtime/full_frame.c, and
-- `incjoin` and `decjoin` of scheduler.c.
use cilk_l.Prelude.{ℕ, suc, ◌+◌, ◌-◌, ◌^◌, ◌≡◌, ◌≤◌, ◌<◌, none, some, arith}
use cilk_l.SpawnTree.{
  Frame, put_stack, take_stack, adjust_stack, incjoin, decjoin, simulate_decjoin,
}

-- A frame with no saved stack pointer is stolen when its own is `sp`, and resumed on another stack at
-- `sp'`. If it frees a variable length array of `size` bytes and gets to a sync `k` bytes further down
-- that stack, what is saved is the place just as far from `sp`, and to resume it there leaves no
-- saved stack pointer.
pub sync_sp_lem :
    (ff : Frame) (sp sp' k size : ℕ)
    → ff.sync_sp ≡ 0
    → sp + size < 2 ^ 64
    → sp' < 2 ^ 64
    → k ≤ sp
    → k ≤ sp'
    → ((put_stack (adjust_stack (take_stack (put_stack ff sp) sp') size) (sp' - k)).sync_sp
        ≡ sp + size - k)
      × ((take_stack
            (put_stack (adjust_stack (take_stack (put_stack ff sp) sp') size) (sp' - k))
            (sp + size - k)).sync_sp
          ≡ 0)
unfolding put_stack take_stack adjust_stack
sync_sp_lem ff sp sp' k size e room lt le le' = (omega arith, omega arith)

-- Saving a stack pointer and taking it back undo each other, whatever was saved before.
pub take_stack-put_stack :
    (ff : Frame) (sp : ℕ)
    → ff.sync_sp < 2 ^ 64
    → sp < 2 ^ 64
    → (take_stack (put_stack ff sp) sp ≡ ff) × (put_stack (take_stack ff sp) sp ≡ ff)
unfolding put_stack take_stack
take_stack-put_stack ff sp lt lt' = (ground arith, ground arith)

-- `decjoin` undoes `incjoin`, and the count that it returns is the frame's; it fails on a count of 0
-- and only there, and `simulate_decjoin` gives the count that it would return.
pub decjoin-incjoin :
    (ff : Frame)
    → (decjoin (incjoin ff) ≡ some (ff.join_counter, ff))
      × (simulate_decjoin (incjoin ff) ≡ some ff.join_counter)
      × ((n : ℕ)
          → ff.join_counter ≡ suc n
          → (decjoin ff ≡ some (n, record ff { join_counter = n }))
            × (simulate_decjoin ff ≡ some n))
      × (ff.join_counter ≡ 0 → (decjoin ff ≡ none) × (simulate_decjoin ff ≡ none))
unfolding decjoin incjoin simulate_decjoin
decjoin-incjoin ff = (
  ground arith,
  ground arith,
  λ n e. (ground (arith, e), ground (arith, e)),
  λ e. (ground (arith, e), ground (arith, e)),
)
