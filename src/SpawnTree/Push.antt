-- ===== src/SpawnTree/Push.antt =====
-- `push_child` of cilk-l/runtime/scheduler.c puts a frame to the right of all children.
use cilk_l.Prelude.{ℕ, ◌≡◌, ◌≢◌, List, [], ◌∷◌, arith, ◌<◌}
use cilk_l.SpawnTree.{Heap, push_child, double_link}
use cilk_l.SpawnTree.Siblings.{Apart, Chain, Children, Chain-keep}

-- The fields that `push_child` leaves, in terms of the rightmost child before.
record Pushed (h h' : Heap) (parent c y : ℕ) : Type 0 where
  rightmost : (h' parent).rightmost_child ≡ c
  right_end : (h' c).right_sibling ≡ 0
  left : (h' c).left_sibling ≡ y
  neighbour : y ≢ 0 → (h' y).right_sibling ≡ c
  lefts : (x : ℕ) → c ≢ x → (h' x).left_sibling ≡ (h x).left_sibling
  rights : (x : ℕ) → c ≢ x → y ≢ x → (h' x).right_sibling ≡ (h x).right_sibling
  families : (q : ℕ) → parent ≢ q → (h' q).rightmost_child ≡ (h q).rightmost_child

push_child-Pushed :
    (h : Heap) (parent c : ℕ)
    → 0 < c
    → c ≢ (h parent).rightmost_child
    → Pushed h (push_child parent c h) parent c (h parent).rightmost_child
unfolding push_child double_link
push_child-Pushed h parent c pos ne = record {
  rightmost = ground arith;
  right_end = ground arith;
  left = ground arith;
  neighbour = λ nz. ground (arith, nz);
  lefts = λ x n. ground (arith, n);
  rights = λ x n n'. ground (arith, n, n');
  families = λ q n. ground (arith, n);
}

first-Apart : (h : Heap) (c p : ℕ) (cs : List ℕ) → 0 < c → Chain h 0 p cs → Apart c cs → c ≢ p
unfolding Apart Chain
first-Apart h c p [] pos e away = omega arith
first-Apart h c p (x ∷ cs) pos (is, a, b, d, e) (ne, away) = omega arith

Pushed-Chain :
    (h h' : Heap) (parent c y : ℕ) (cs : List ℕ)
    → Pushed h h' parent c y
    → Chain h 0 y cs
    → Apart c cs
    → Chain h' c y cs
unfolding Apart Chain
Pushed-Chain h h' parent c y [] d e away = e
Pushed-Chain h h' parent c y (x ∷ cs) d (is, pos, at_right, others, chain) (ne, away) = (
  is,
  pos,
  (let nb = d.neighbour (omega arith) in rw (← is) nb),
  others,
  rw (d.lefts x ne) (
      Chain-keep h h' c x x x (h x).left_sibling cs
        (λ z n n' n''. (d.lefts z n, d.rights z n (rw is n'))) away others others chain),
)

-- A frame that is not null and not yet a child becomes the youngest child, to the right of all the
-- others, in their order, and its own right sibling is null. The children of another parent stay as
-- they are, if neither the new child nor its new neighbour is among them.
pub push_child_lem :
    (h : Heap) (parent c : ℕ) (cs : List ℕ)
    → 0 < c
    → Children h parent cs
    → Apart c cs
    → Children (push_child parent c h) parent (c ∷ cs)
      × ((q : ℕ) (ds : List ℕ)
          → parent ≢ q
          → Children h q ds
          → Apart c ds
          → Apart (h parent).rightmost_child ds
          → Children (push_child parent c h) q ds)
unfolding Children Chain
push_child_lem h parent c cs pos chain away =
    let y = (h parent).rightmost_child in
    let h' = push_child parent c h in
    let d = push_child-Pushed h parent c pos (first-Apart h c y cs pos chain away) in
    (
      (
        d.rightmost,
        pos,
        d.right_end,
        away,
        rw d.left (Pushed-Chain h h' parent c y cs d chain away),
      ),
      λ q ds other chain' away' away''. rw (d.families q other) (
          Chain-keep h h' c y y 0 (h q).rightmost_child ds
            (λ z n n' n''. (d.lefts z n, d.rights z n n')) away' away'' away'' chain'),
    )
