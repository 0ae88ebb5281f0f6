-- ===== src/SpawnTree/Links.antt =====
-- What `unlink_child` of cilk-l/runtime/scheduler.c does to the pointers of a heap.
use cilk_l.Prelude.{ℕ, ◌≡◌, refl, ◌≢◌, some, arith, ap₂, ◌==◌, true, false}
use cilk_l.SpawnTree.{Heap, unlink_child, double_link, set_left, set_right, set_rightmost}

-- The fields that `unlink_child` leaves, for a child `c` between the siblings `l` and `r`.
pub record Unlinked (h h' : Heap) (parent c l r : ℕ) : Type 0 where
  pub cleared : ((h' c).left_sibling ≡ 0) × ((h' c).right_sibling ≡ 0)
  pub left_end : l ≢ 0 → (h' l).right_sibling ≡ r
  pub right_end : r ≢ 0 → (h' r).left_sibling ≡ l
  pub lefts : (x : ℕ) → c ≢ x → r ≢ x → (h' x).left_sibling ≡ (h x).left_sibling
  pub rights : (x : ℕ) → c ≢ x → l ≢ x → (h' x).right_sibling ≡ (h x).right_sibling
  pub at_end : r ≡ 0 → (h' parent).rightmost_child ≡ l
  pub inside : r ≢ 0 → (h' parent).rightmost_child ≡ (h parent).rightmost_child
  pub families : (q : ℕ) → parent ≢ q → (h' q).rightmost_child ≡ (h q).rightmost_child

-- `unlink_child` by its two branches, after the siblings have been linked.
unlink_child-last :
    (h h1 : Heap) (parent c : ℕ)
    → double_link (h c).left_sibling (h c).right_sibling h ≡ h1
    → (h1 c).right_sibling ≡ 0
    → (h1 parent).rightmost_child ≡ c
    → unlink_child parent c h
      ≡ some (set_left c 0 (set_right c 0 (set_rightmost parent (h1 c).left_sibling h1)))
unfolding unlink_child
unlink_child-last h h1 parent c e last is =
    let one : ((h1 c).right_sibling == 0) ≡ true = ground (arith, last) in
    let two : ((h1 parent).rightmost_child == c) ≡ true = ground (arith, is) in
    rw (e, one, two) refl

unlink_child-middle :
    (h h1 : Heap) (parent c : ℕ)
    → double_link (h c).left_sibling (h c).right_sibling h ≡ h1
    → (h1 c).right_sibling ≢ 0
    → unlink_child parent c h ≡ some (set_left c 0 (set_right c 0 h1))
unfolding unlink_child
unlink_child-middle h h1 parent c e inner =
    let one : ((h1 c).right_sibling == 0) ≡ false = ground (arith, inner) in rw (e, one) refl

pub unlink_child-at_end :
    (h : Heap) (parent c l : ℕ)
    → (h c).left_sibling ≡ l
    → (h c).right_sibling ≡ 0
    → c ≢ l
    → (h parent).rightmost_child ≡ c
    → (h' : Heap) × (unlink_child parent c h ≡ some h') × Unlinked h h' parent c l 0
unfolding double_link
unlink_child-at_end h parent c l el er ne is =
    let h1 : Heap = double_link l 0 h in
    let same_left : (h1 c).left_sibling ≡ l = ground (arith, el) in
    let same_right : (h1 c).right_sibling ≡ 0 = ground (arith, er) in
    let same : (h1 parent).rightmost_child ≡ c = ground (arith, is) in
    (
      set_left c 0 (set_right c 0 (set_rightmost parent (h1 c).left_sibling h1)),
      unlink_child-last h h1 parent c (ap₂ (λ l r. double_link l r h) el er) same_right same,
      record {
        cleared = ground arith;
        left_end = λ nz. ground (arith, nz);
        right_end = λ nz. absurd (nz refl);
        lefts = λ x n n'. ground (arith, n, n');
        rights = λ x n n'. ground (arith, n, n');
        at_end = λ z. ground (arith, same_left);
        inside = λ nz. absurd (nz refl);
        families = λ q n. ground (arith, n);
      },
    )

pub unlink_child-inside :
    (h : Heap) (parent c l r : ℕ)
    → (h c).left_sibling ≡ l
    → (h c).right_sibling ≡ r
    → c ≢ l
    → c ≢ r
    → l ≢ r
    → r ≢ 0
    → (h' : Heap) × (unlink_child parent c h ≡ some h') × Unlinked h h' parent c l r
unfolding double_link
unlink_child-inside h parent c l r el er ne ne' ne'' nz =
    let h1 : Heap = double_link l r h in
    let inner : (h1 c).right_sibling ≢ 0 = ground (arith, er, nz) in
    (
      set_left c 0 (set_right c 0 h1),
      unlink_child-middle h h1 parent c (ap₂ (λ l r. double_link l r h) el er) inner,
      record {
        cleared = ground arith;
        left_end = λ nz'. ground (arith, nz');
        right_end = λ nz'. ground (arith, nz');
        lefts = λ x n n'. ground (arith, n, n');
        rights = λ x n n'. ground (arith, n, n');
        at_end = λ z. absurd (nz z);
        inside = λ nz'. ground arith;
        families = λ q n. ground (arith, n);
      },
    )
