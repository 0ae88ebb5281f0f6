-- ===== src/Pedigree.antt =====
-- The walk up a pedigree, `__cilkrts_get_pedigree_info` of cilk-l/runtime/cilk_api.c.
-- Pedigree nodes are numbers, and 0 is the null pointer.
pub mod Walk
mod Tests
use cilk_l.Prelude.{ℕ, zero, suc, Bool, true, List, [], ◌∷◌, ◌==◌, if◌then◌else◌}

pub record Node : Type 0 where
  pub rank : ℕ
  pub parent : ℕ

-- `context->pedigree`: null before the walk, the last node of it, or PEDIGREE_WALK_COMPLETE.
pub data Context : Type 0 where
  unstarted : Context
  at : ℕ → Context
  walk_complete : Context

-- The results -3, 1, and 0 with the birth rank.
pub data Answer : Type 0 where
  invalid_size : Answer
  completed : Answer
  success : ℕ → Answer

abbrev pub visit : (ℕ → Node) → ℕ → Answer × Context
visit nodes p = if p == 0 then (completed, walk_complete) else (success (nodes p).rank, at p)

-- `leaf` is the worker's own node, or the thread's if there is no worker; `size_fits` says whether the
-- context has the size that the runtime expects.
unfoldable pub get_pedigree_info : (ℕ → Node) → ℕ → Bool → Context → Answer × Context
get_pedigree_info nodes leaf size_fits context =
    if size_fits
    then elim context [
      | walk_complete ↦ (completed, walk_complete)
      | unstarted ↦ visit nodes (nodes leaf).parent
      | at p ↦ visit nodes (nodes p).parent
    ]
    else (invalid_size, context)

-- The answers to `n` calls, one after the other.
pub calls : ℕ → (ℕ → Node) → ℕ → Context → List Answer
unfolding get_pedigree_info
calls zero nodes leaf context = []
calls (suc n) nodes leaf context =
    let (answer, context') = get_pedigree_info nodes leaf true context in
    answer ∷ calls n nodes leaf context'
