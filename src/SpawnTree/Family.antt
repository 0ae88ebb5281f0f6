-- ===== src/SpawnTree/Family.antt =====
-- What the steps of scheduler.c make of a family of full frames: a new child, a child that returns, and
-- where the map to a child's left is.
use cilk_l.Prelude.{
  ℕ, ◌+◌, ◌≡◌, refl, ◌≢◌, List, [], ◌∷◌, ◌++◌, false, some, arith, ap, ◌∙◌, sym, ◌<◌, ◌==◌,
  if◌then◌else◌, update,
}
use cilk_l.SpawnTree.{
  Heap, double_link, make_full_frame, incjoin, hand_over, push_child, placeholder, make_child,
  LeftMap, right_map, children_map, compute_left_ptrs_for_spawn_return, compute_left_ptrs_for_sync,
}
use cilk_l.SpawnTree.Siblings.{Apart, Chain, Children, Chain-Apart, Chain-from, Chain-keep}
use cilk_l.SpawnTree.Push.{push_child_lem}

-- The frame to the left of a child, in the list of children.
unfoldable pub left_of : List ℕ → ℕ
left_of [] = 0
left_of (x ∷ xs) = x

pub Chain-left :
    (h : Heap) (right p : ℕ) (younger older : List ℕ) (c : ℕ)
    → Chain h right p (younger ++ (c ∷ older))
    → (h c).left_sibling ≡ left_of older
unfolding Chain left_of
Chain-left h right p [] [] c (is, pos, at_right, others, e) = e
Chain-left h right p [] (x ∷ xs) c (is, pos, at_right, others, (e, a, b, d, f)) = e
Chain-left h right p (y ∷ ys) older c (is, pos, at_right, others, chain) =
    Chain-left h y _ ys older c chain

-- The same links, in a heap that differs in other fields.
pub Chain-links :
    (h h' : Heap) (right p : ℕ) (cs : List ℕ)
    → ((x : ℕ)
        → ((h' x).left_sibling ≡ (h x).left_sibling) × ((h' x).right_sibling ≡ (h x).right_sibling))
    → Chain h right p cs
    → Chain h' right p cs
Chain-links h h' right p cs e chain =
    let away = Chain-Apart h right p cs chain in
    Chain-keep h h' 0 0 0 right p cs (λ x a b c. e x) away away away chain

-- The map to the left of what comes behind the children of a list.
unfoldable pub left_map : ℕ → List ℕ → LeftMap
left_map parent [] = children_map parent
left_map parent (x ∷ xs) = right_map x

first-left_map :
    (h : Heap) (right p parent : ℕ) (cs : List ℕ)
    → Chain h right p cs
    → (if p == 0 then children_map parent else right_map p) ≡ left_map parent cs
unfolding Chain left_map
first-left_map h right p parent [] e = ground (arith, e)
first-left_map h right p parent (x ∷ xs) (is, pos, a, b, d) = ground (arith, is, pos)

older-Chain :
    (h : Heap) (right p : ℕ) (younger older : List ℕ) (c : ℕ)
    → Chain h right p (younger ++ (c ∷ older))
    → Chain h c (h c).left_sibling older
unfolding Chain
older-Chain h right p [] older c (is, pos, at_right, others, chain) = chain
older-Chain h right p (y ∷ ys) older c (is, pos, at_right, others, chain) =
    older-Chain h y _ ys older c chain

-- If the children know their parent, the map to the left of a child that returns is the right map of
-- the next older child, and the map to the left of the parent at a sync is the right map of the
-- youngest child; where there is no such child it is the parent's map of its children.
pub compute_left_ptrs_lem :
    (h : Heap) (parent c : ℕ) (younger older : List ℕ)
    → Children h parent (younger ++ (c ∷ older))
    → (h c).parent ≡ parent
    → (h (h parent).rightmost_child).parent ≡ parent
    → (compute_left_ptrs_for_spawn_return c h ≡ left_map parent older)
      × (compute_left_ptrs_for_sync parent h ≡ some (left_map parent (younger ++ (c ∷ older))))
unfolding compute_left_ptrs_for_spawn_return compute_left_ptrs_for_sync Children
compute_left_ptrs_lem h parent c younger older chain known known' =
    let own = first-left_map h c _ parent older (older-Chain h 0 _ younger older c chain) in
    let all = first-left_map h 0 _ parent (younger ++ (c ∷ older)) chain in
    (rw known own, (let e = ap some all in ground (arith, e, known')))

push_child-kept :
    (h : Heap) (parent c x : ℕ)
    → ((push_child parent c h x).join_counter ≡ (h x).join_counter)
      × ((push_child parent c h x).parent ≡ (h x).parent)
      × ((push_child parent c h x).fiber_self ≡ (h x).fiber_self)
unfolding push_child double_link
push_child-kept h parent c x = (ground arith, ground arith, ground arith)

record Handed (h h' : Heap) (parent c fiber : ℕ) : Type 0 where
  links :
      (x : ℕ)
      → ((h' x).left_sibling ≡ (h x).left_sibling) × ((h' x).right_sibling ≡ (h x).right_sibling)
  rightmost : (h' parent).rightmost_child ≡ (h parent).rightmost_child
  parent_of : (h' c).parent ≡ (h c).parent
  fiber_of : (h' c).fiber_self ≡ (h parent).fiber_self
  called : (h' c).is_call_child ≡ (fiber == 0)
  new_fiber : (h' parent).fiber_self ≡ (if fiber == placeholder then 0 else fiber)
  joins : (h' parent).join_counter ≡ (h parent).join_counter + 1

hand_over-Handed :
    (h : Heap) (parent c fiber : ℕ)
    → c ≢ parent
    → Handed h (hand_over parent c fiber h) parent c fiber
unfolding hand_over incjoin
hand_over-Handed h parent c fiber ne = record {
  links = λ x. (ground arith, ground arith);
  rightmost = ground arith;
  parent_of = ground arith;
  fiber_of = ground arith;
  called = ground arith;
  new_fiber = ground arith;
  joins = ground arith;
}

-- A new child, of a parent that has a call stack and is not the parent of a future, becomes the youngest
-- child. It knows its parent, and it gets the parent's fiber; the parent gets the new fiber, none for
-- a placeholder or a called child, and one more to join. A child is a called one if there is no fiber.
pub make_child_lem :
    (h : Heap) (parent c sf fiber : ℕ) (cs : List ℕ)
    → 0 < c
    → c ≢ parent
    → (h parent).call_stack ≢ 0
    → Children h parent cs
    → Apart c cs
    → (h' : Heap) × (make_child false parent c sf fiber h ≡ some h')
      × Children h' parent (c ∷ cs)
      × ((h' c).parent ≡ parent)
      × ((h' c).fiber_self ≡ (h parent).fiber_self)
      × ((h' c).is_call_child ≡ (fiber == 0))
      × ((h' parent).fiber_self ≡ (if fiber == placeholder then 0 else fiber))
      × ((h' parent).join_counter ≡ (h parent).join_counter + 1)
unfolding make_child make_full_frame Children
make_child_lem h parent c sf fiber cs pos ne called chain away =
    let h0 : Heap = update h c (make_full_frame sf) in
    let h1 : Heap = update h0 c (record (h0 c) { parent = parent }) in
    let g : Heap = push_child parent c h1 in
    let start : Chain h1 0 (h1 parent).rightmost_child cs =
      Chain-from h1 0 _ _ cs (ground (arith, ne))
        (Chain-keep h h1 c c c 0 _ cs (λ x n n' n''. ground (arith, n)) away away away chain) in
    let (pushed, _) = push_child_lem h1 parent c cs pos start away in
    let kept_p = push_child-kept h1 parent c parent in
    let kept_c = push_child-kept h1 parent c c in
    let d = hand_over-Handed g parent c fiber ne in
    let h' : Heap = hand_over parent c fiber g in
    let stacked : ((h0 parent).call_stack == 0) ≡ false = ground (arith, ne, called) in
    (
      h',
      rw stacked refl,
      Chain-from h' 0 _ _ (c ∷ cs) (sym d.rightmost) (Chain-links g h' 0 _ (c ∷ cs) d.links pushed),
      d.parent_of ∙ (kept_c.1 ∙ ground arith),
      d.fiber_of ∙ (kept_p.2 ∙ ground (arith, ne)),
      d.called,
      d.new_fiber,
      d.joins ∙ ap (λ n. n + 1) (kept_p.0 ∙ ground (arith, ne)),
    )
