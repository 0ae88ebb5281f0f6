-- ===== src/Reduction/Tests.antt =====
-- The reducer protocol on lists, merged by `++`.
use mathlib.Core.List.{append_assoc}
use cilk_l.Prelude.{true, ℕ, ◌≤◌, ◌≡◌, refl, false, none, some, List, [], ◌∷◌, ◌++◌, length}
use cilk_l.Reduction.Sync.{sync_size, sync_deterministic}
use cilk_l.Reduction.{
  Stalled, Actor, child, parent, sync_run, sync_step, sync_act, sync_round, Child, Family, run,
  step, act, fast_path_reductions_for_spawn_return, merge,
}
use cilk_l.Reduction.Order.{product}
use cilk_l.Reduction.Schedule.{size, reductions_deterministic}

append : List ℕ → List ℕ → List ℕ
append = ◌++◌

append-append : (a b c : List ℕ) → append (append a b) c ≡ append a (append b c)
unfolding append
append-append a b c = append_assoc a b c

abbrev returning : ℕ → Child (List ℕ)
returning n = record { map = some (n ∷ []); right = none; merging = false }

-- Three children return; the rightmost one has something to its right already.
abbrev three : Family (List ℕ)
three = record {
  children_map = some (1 ∷ []);
  children =
      returning 2
      ∷ returning 3
      ∷ record { map = some (4 ∷ []); right = some (5 ∷ []); merging = false }
      ∷ [];
}

-- The last child first, then the one in the middle.
backwards :
    run append (2 ∷ 2 ∷ 1 ∷ 1 ∷ 0 ∷ 0 ∷ []) three
    ≡ some (record { children_map = some (1 ∷ 2 ∷ 3 ∷ 4 ∷ 5 ∷ []); children = [] })
unfolding run step act fast_path_reductions_for_spawn_return merge append
backwards = refl

reductions_deterministic_example :
    ((ks : List ℕ) (g : Family (List ℕ))
      → run append ks three ≡ some g
      → length ks ≤ size append append-append three)
    × ((ks : List ℕ) × (g : Family (List ℕ)) × (run append ks three ≡ some g) × (g.children ≡ []))
    × ((ks : List ℕ) (g : Family (List ℕ))
        → run append ks three ≡ some g
        → g.children ≡ []
        → g.children_map ≡ product append three)
reductions_deterministic_example =
    reductions_deterministic append append-append three
      ((λ e. refl), ((λ e. refl), ((λ e. refl), tt)))

-- The parent of the three children stalls at a sync with a map of its own.
abbrev at_sync : Stalled (List ℕ)
at_sync = record { family = three; own = some (6 ∷ []); stalled = true }

-- The parent merges its map to the left, and only then do the children return.
parent_first :
    sync_run append
      (parent ∷ parent ∷ child 2 ∷ child 2 ∷ child 1 ∷ child 1 ∷ child 0 ∷ child 0 ∷ [])
      at_sync
    ≡ some (record {
      family = record { children_map = some (1 ∷ 2 ∷ 3 ∷ 4 ∷ 5 ∷ 6 ∷ []); children = [] };
      own = none;
      stalled = false;
    })
unfolding sync_run sync_step sync_act sync_round step act fast_path_reductions_for_spawn_return
    merge append
parent_first = refl

sync_deterministic_example :
    ((rest : List Actor) (t : Stalled (List ℕ))
      → sync_run append rest at_sync ≡ some t
      → length rest ≤ sync_size append append-append at_sync)
    × ((rest : List Actor) × (t : Stalled (List ℕ)) × (sync_run append rest at_sync ≡ some t)
        × (t.family.children ≡ [])
        × (t.stalled ≡ false))
    × ((rest : List Actor) (t : Stalled (List ℕ))
        → sync_run append rest at_sync ≡ some t
        → t.family.children ≡ []
        → t.stalled ≡ false
        → t.family.children_map ≡ merge append (product append three) (some (6 ∷ [])))
sync_deterministic_example =
    sync_deterministic append append-append at_sync ((λ e. refl), ((λ e. refl), ((λ e. refl), tt)))
      refl
