-- ===== src/Reducers/Tests.antt =====
-- Maxima, lists and vectors that are reduced.
use cilk_l.Prelude.{ℕ, ◌≡◌, refl, true, false, Option, none, some, List, [], ◌∷◌, ◌++◌, ltb}
use cilk_l.Reduction.{Family, merge, run, step, act, fast_path_reductions_for_spawn_return}
use cilk_l.ReducerMap.Serial.{Values, pointwise, value_at}
use cilk_l.Reducers.MinMax.{
  View, unset, calc, calc_all, reduce, has_value, reduce_assoc, reduce-calc_all, ltb-IsOrder,
}
use cilk_l.Reducers.Vectors.{VectorView, contents, contents-reduce}
use cilk_l.Reducers.Lists.{
  StdList, splice_back, splice_front, splice_range_front, insert_back, insert_front, with_elements,
}
use cilk_l.Reducers.Serial.{after_all, in_order, run_updates}

abbrev itself : ℕ → ℕ
itself n = n

abbrev indexed : ℕ × ℕ → ℕ
indexed (i, n) = n

-- A strand that has seen 5 is to the left of one that sees 3, 7 and 7.
reduce-calc_all_example :
    reduce itself ltb
      (record { value = 5; is_set = true })
      (calc_all itself ltb false (3 ∷ 7 ∷ 7 ∷ []) (unset itself ltb 0))
    ≡ calc_all itself ltb false (3 ∷ 7 ∷ 7 ∷ []) (record { value = 5; is_set = true })
reduce-calc_all_example =
    reduce-calc_all itself ltb ltb-IsOrder (3 ∷ 7 ∷ 7 ∷ []) (record { value = 5; is_set = true }) 0

-- The index is lost with the optimisation, and kept without it.
lost_index :
    (calc_all indexed ltb true ((4, 0) ∷ []) (unset indexed ltb (9, 0))
      ≡ record { value = (9, 0); is_set = true })
    × (calc_all indexed ltb false ((4, 0) ∷ []) (unset indexed ltb (9, 0))
        ≡ record { value = (4, 0); is_set = true })
unfolding calc has_value
lost_index = (refl, refl)

abbrev left_view : VectorView ℕ
left_view = record { vector = 1 ∷ []; list = [] }

abbrev right_view : VectorView ℕ
right_view = record { vector = 3 ∷ []; list = (2 ∷ []) ∷ [] }

contents-reduce_example :
    contents (cilk_l.Reducers.Vectors.reduce left_view right_view).0
    ≡ contents left_view ++ contents right_view
contents-reduce_example = contents-reduce left_view right_view

abbrev here : StdList ℕ
here = record { allocator = 1; elements = 10 ∷ [] }

abbrev there : StdList ℕ
there = record { allocator = 2; elements = 20 ∷ [] }

-- Lists with different allocators: a splice to the front loses the elements, one of the same elements
-- between two iterators does not.
test_splice_back : splice_back here there ≡ (insert_back (20 ∷ []) here, with_elements there [])
unfolding splice_back
test_splice_back = refl

test_splice_front : splice_front here there ≡ (here, with_elements there [])
unfolding splice_front
test_splice_front = refl

test_splice_range_front :
    splice_range_front 2 here (record { before = []; between = 20 ∷ []; after = [] })
    ≡ (insert_front (20 ∷ []) here, [])
unfolding splice_range_front
test_splice_range_front = refl

abbrev maximum : ℕ → View ℕ → View ℕ → View ℕ
maximum hb = reduce itself ltb

abbrev seen : List ℕ → View ℕ
seen xs = calc_all itself ltb false xs (unset itself ltb 0)

abbrev map_of : View ℕ → ℕ → Option (View ℕ)
map_of v k = some v

-- Two children, the left one has seen 3 and 8, the right one 5.
abbrev two : Family (Values maximum itself)
two = record {
  children_map = some (map_of (record { value = 4; is_set = true }));
  children =
      record { map = some (map_of (seen (3 ∷ 8 ∷ []))); right = none; merging = false }
      ∷ record { map = some (map_of (seen (5 ∷ []))); right = none; merging = false }
      ∷ [];
}

abbrev maxima : Values maximum itself → Values maximum itself → Values maximum itself
maxima = pointwise maximum itself

abbrev returned : Family (Values maximum itself)
returned = record {
  children_map = some (
      maxima (maxima (map_of (record { value = 4; is_set = true })) (map_of (seen (3 ∷ 8 ∷ []))))
        (map_of (seen (5 ∷ []))));
  children = [];
}

two-returned : run maxima (1 ∷ 0 ∷ 0 ∷ []) two ≡ some returned
unfolding run step act fast_path_reductions_for_spawn_return merge
two-returned = refl

run_updates_example :
    (v : View ℕ) × (value_at maximum itself 6 returned.children_map ≡ some v)
    × (v
        ≡ after_all maximum itself
            (λ w. w)
            (calc itself ltb false)
            (in_order maximum itself
              (λ w. w)
              (calc itself ltb false)
              ((3 ∷ 8 ∷ [], []) ∷ (5 ∷ [], []) ∷ []))
            (record { value = 4; is_set = true }))
run_updates_example =
    run_updates maximum itself (λ w. w) (calc itself ltb false)
      (λ k. reduce_assoc itself ltb ltb-IsOrder) two returned (1 ∷ 0 ∷ 0 ∷ [])
      ((λ e. absurd (cc)), ((λ e. absurd (cc)), tt)) two-returned refl 6
      (record { value = 4; is_set = true }) ((3 ∷ 8 ∷ [], []) ∷ (5 ∷ [], []) ∷ []) refl
      (
        (λ a. reduce-calc_all itself ltb ltb-IsOrder (3 ∷ 8 ∷ []) a 0),
        refl,
        ((λ a. reduce-calc_all itself ltb ltb-IsOrder (5 ∷ []) a 0), refl, tt),
      )
