-- ===== src/SpawnTree/Tests.antt =====
-- A parent with two children, and what the operations make of it.
use cilk_l.Prelude.{
  ℕ, ◌+◌, ◌≡◌, ◌≢◌, refl, List, [], ◌∷◌, some, false, arith, update, ◌==◌, if◌then◌else◌,
}
use cilk_l.SpawnTree.{
  Frame, Heap, make_full_frame, push_child, unlink_child, placeholder, make_child,
}
use cilk_l.SpawnTree.Siblings.{Apart, Chain, Children}
use cilk_l.SpawnTree.Push.{push_child_lem}
use cilk_l.SpawnTree.Unlink.{unlink_child_lem}
use cilk_l.SpawnTree.Family.{make_child_lem}

abbrev fresh : Frame
unfolding make_full_frame
fresh = make_full_frame 9

-- Frame 1 has the children 2, the older, and 3.
abbrev heap : Heap
heap =
    update
      (update (update (λ x. fresh) 1 (record fresh { rightmost_child = 3; fiber_self = 6 })) 2
        (record fresh { parent = 1; right_sibling = 3; fiber_self = 7 }))
      3 (record fresh { parent = 1; left_sibling = 2; fiber_self = 5 })

heap-Children : Children heap 1 (3 ∷ 2 ∷ [])
unfolding Children Chain Apart make_full_frame
heap-Children =
    (refl, omega arith, refl, ((λ e. omega arith), tt), (refl, omega arith, refl, tt, refl))

new-Apart : Apart 4 (3 ∷ 2 ∷ [])
unfolding Apart
new-Apart = ((λ e. omega arith), ((λ e. omega arith), tt))

push_child_lem_example :
    Children (push_child 1 4 heap) 1 (4 ∷ 3 ∷ 2 ∷ [])
    × ((q : ℕ) (ds : List ℕ)
        → 1 ≢ q
        → Children heap q ds
        → Apart 4 ds
        → Apart 3 ds
        → Children (push_child 1 4 heap) q ds)
push_child_lem_example = push_child_lem heap 1 4 (3 ∷ 2 ∷ []) (omega arith) heap-Children new-Apart

unlink_child_lem_example :
    (h' : Heap) × (unlink_child 1 2 heap ≡ some h')
    × Children h' 1 (3 ∷ [])
    × ((h' 2).left_sibling ≡ 0)
    × ((h' 2).right_sibling ≡ 0)
    × ((q : ℕ) (ds : List ℕ)
        → 1 ≢ q
        → Children heap q ds
        → Apart 2 ds
        → Apart (heap 2).left_sibling ds
        → Apart (heap 2).right_sibling ds
        → Children h' q ds)
unlink_child_lem_example = unlink_child_lem heap 1 2 (3 ∷ []) [] heap-Children

make_child_lem_example :
    (h' : Heap) × (make_child false 1 4 9 8 heap ≡ some h')
    × Children h' 1 (4 ∷ 3 ∷ 2 ∷ [])
    × ((h' 4).parent ≡ 1)
    × ((h' 4).fiber_self ≡ (heap 1).fiber_self)
    × ((h' 4).is_call_child ≡ (8 == 0))
    × ((h' 1).fiber_self ≡ (if 8 == placeholder then 0 else 8))
    × ((h' 1).join_counter ≡ (heap 1).join_counter + 1)
unfolding make_full_frame
make_child_lem_example =
    make_child_lem heap 1 4 9 8 (3 ∷ 2 ∷ []) (omega arith) (omega arith) (omega arith) heap-Children
      new-Apart
