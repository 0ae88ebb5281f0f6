-- ===== src/SpawnTree/Siblings.antt =====
-- The children of a full frame as a list: what the sibling pointers of cilk-l/runtime/scheduler.c
-- stand for.
use cilk_l.Prelude.{ℕ, ◌≡◌, ◌≢◌, List, [], ◌∷◌, ◌++◌, arith, ◌∙◌, ◌<◌}
use cilk_l.SpawnTree.{Heap}

-- No frame of the list is `x`.
unfoldable pub Apart : ℕ → List ℕ → Type 0
Apart x [] = Unit
Apart x (c ∷ cs) = (x ≢ c) × Apart x cs

-- From `p` on, the left siblings are the frames of `cs`, all different, and none is null; the frame to
-- the right of the first is `right`, and each is the right sibling of the next.
unfoldable pub Chain : Heap → ℕ → ℕ → List ℕ → Type 0
Chain h right p [] = p ≡ 0
Chain h right p (c ∷ cs) =
    (p ≡ c) × (0 < c) × ((h c).right_sibling ≡ right) × Apart c cs × Chain h c (h c).left_sibling cs

-- The children of `parent`, the youngest, which is the rightmost, first.
unfoldable pub Children : Heap → ℕ → List ℕ → Type 0
Children h parent cs = Chain h 0 (h parent).rightmost_child cs

pub Apart-remove :
    (x : ℕ) (older younger : List ℕ) (c : ℕ)
    → Apart x (younger ++ (c ∷ older))
    → (x ≢ c) × Apart x older × Apart x (younger ++ older)
unfolding Apart
Apart-remove x older [] c (ne, a) = (ne, a, a)
Apart-remove x older (y ∷ ys) c (ne, a) =
    let (ne', a', rest) = Apart-remove x older ys c a in (ne', a', (ne, rest))

-- Null is not in a chain.
pub Chain-Apart : (h : Heap) (right p : ℕ) (cs : List ℕ) → Chain h right p cs → Apart 0 cs
unfolding Apart Chain
Chain-Apart h right p [] c = tt
Chain-Apart h right p (x ∷ cs) (e, pos, er, ap', c) = ((λ z. omega arith), Chain-Apart h x _ cs c)

-- A heap that agrees on all frames but three, none of which is in the chain, has the same chain.
pub Chain-keep :
    (h h' : Heap) (i j k right p : ℕ) (cs : List ℕ)
    → ((x : ℕ)
        → i ≢ x
        → j ≢ x
        → k ≢ x
        → ((h' x).left_sibling ≡ (h x).left_sibling) × ((h' x).right_sibling ≡ (h x).right_sibling))
    → Apart i cs
    → Apart j cs
    → Apart k cs
    → Chain h right p cs
    → Chain h' right p cs
unfolding Apart Chain
Chain-keep h h' i j k right p [] e a b c chain = chain
Chain-keep h h' i j k right p (x ∷ cs) e (na, a) (nb, b) (nc, c)
      (is, pos, at_right, others, chain) =
    let (l, r) = e x na nb nc in
    (is, pos, r ∙ at_right, others, Chain-keep h h' i j k x _ cs e a b c (rw l chain))

pub Chain-from :
    (h : Heap) (right p q : ℕ) (cs : List ℕ) → p ≡ q → Chain h right p cs → Chain h right q cs
Chain-from h right p q cs e c = rw (← e) c
