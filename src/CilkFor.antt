-- ===== src/CilkFor.antt =====
-- The loops of cilk-l/runtime/cilk-abi-cilk-for.cpp: `grainsize`, and the recursion that halves the
-- range of a `cilk_for` and spawns the halves. `w` is the width of `count_t`, 32 or 64 bits.
pub mod Cover
pub mod Grain
pub mod Overflow
mod Tests
use cilk_l.Prelude.{
  ℕ, zero, suc, ◌+◌, ◌-◌, ◌*◌, ◌/◌, ◌%◌, ◌^◌, Bool, Option, none, some, List, [], ◌∷◌, ◌++◌, ltb,
  if◌then◌else◌, ℤ, pos, negsuc,
}
use cilk_l.Pedigree.{Node}

-- The fields of the global state that `grainsize` reads.
pub record Globals : Type 0 where
  pub p : ℕ
  pub under_ptool : Bool

-- What `grainsize` computes if no grain was asked for.
pub default_grainsize : ℕ → Globals → ℕ → ℕ
default_grainsize w g count =
    let px8 = g.p * 8 in
    let n = (count + px8 - 1) % 2 ^ w / px8 in
    if ltb count 1 then 1 else (if g.under_ptool then 1 else (if ltb 2048 n then 2048 else n))

pub grainsize : ℕ → Globals → ℤ → ℕ → ℕ
grainsize w g (pos zero) count = default_grainsize w g count
grainsize w g (pos (suc n)) count = suc n
grainsize w g (negsuc n) count = default_grainsize w g count

-- A call of the loop's body: its range, and the rank of the leaf that it has in the pedigree.
pub record Call : Type 0 where
  pub low : ℕ
  pub high : ℕ
  pub rank : ℕ

-- How the strands of a loop hang together: `spawn` has the spawned half and the one that goes on.
pub data Strands : Type 0 where
  body : Call → Strands
  spawn : Strands → Strands → Strands

abbrev pub call_cilk_for_loop_body : ℕ → ℕ → Strands
call_cilk_for_loop_body low high =
    body (record { low = low; high = high; rank = (low + 1) % 2 ^ 64 })

abbrev pub both : Option Strands → Option Strands → Option Strands
both none right = none
both (some l) none = none
both (some l) (some r) = some (spawn l r)

-- The first argument bounds the depth of the recursion; a jump to `tail_recurse` counts as a call.
pub cilk_for_recursive : ℕ → ℕ → ℕ → ℕ → ℕ → Option Strands
cilk_for_recursive zero w grain low high = none
cilk_for_recursive (suc depth) w grain low high =
    let count = (high + 2 ^ w - low) % 2 ^ w in
    let mid = (low + count / 2) % 2 ^ w in
    let forked =
      both (cilk_for_recursive depth w grain low mid) (cilk_for_recursive depth w grain mid high) in
    if ltb grain count then forked else some (call_cilk_for_loop_body low high)

-- A spawned function returns: the rank is one above the one that the spawn helper has saved.
abbrev pub update_pedigree_on_leave_frame : Node → Node
update_pedigree_on_leave_frame saved = record saved { rank = (saved.rank + 1) % 2 ^ 64 }

-- The strands, and the worker's pedigree afterwards, before the sync that the compiler adds. `pedigree`
-- is the one on entry; the spawn of `noop` makes of it the root of the loop.
pub cilk_for_root : ℕ → ℕ → Globals → ℤ → ℕ → Node → Option (Strands × Node)
unfolding grainsize default_grainsize cilk_for_recursive
cilk_for_root depth w g grain count pedigree =
    let loop_root = update_pedigree_on_leave_frame pedigree in
    elim (cilk_for_recursive depth w (grainsize w g grain count) 0 count) [
      | none ↦ none
      | some t ↦ some (t, record loop_root { rank = (loop_root.rank + 1) % 2 ^ 64 })
    ]

-- `__cilkrts_cilk_for_32` and `__cilkrts_cilk_for_64`. An empty loop has no strand.
pub cilk_for : ℕ → ℕ → Globals → ℤ → ℕ → Node → Option (Option Strands × Node)
unfolding cilk_for_root
cilk_for depth w g grain count pedigree =
    if ltb 0 count
    then elim (cilk_for_root depth w g grain count pedigree) [
      | none ↦ none
      | some (t, pedigree') ↦ some (some t, pedigree')
    ]
    else some (none, pedigree)
