-- ===== src/SpawnTree/Unlink.antt =====
-- `unlink_child` of cilk-l/runtime/scheduler.c takes one child out and keeps the order of the others.
use cilk_l.Prelude.{ℕ, ◌≡◌, refl, ◌≢◌, List, [], ◌∷◌, ◌++◌, some, arith, ◌∙◌, ◌<◌, ℕ_discrete, sym}
use cilk_l.SpawnTree.{Heap, unlink_child}
use cilk_l.SpawnTree.Links.{Unlinked, unlink_child-at_end, unlink_child-inside}
use cilk_l.SpawnTree.Siblings.{
  Apart, Chain, Children, Apart-remove, Chain-Apart, Chain-from, Chain-keep,
}

-- A list's first frame, or `l` if there is none.
entry : List ℕ → ℕ → ℕ → ℕ
entry [] l p = l
entry (x ∷ xs) l p = p

-- The left sibling of a frame in a chain is not one that is apart from the chain.
Apart-left :
    (h : Heap) (a right p : ℕ) (younger older : List ℕ) (c : ℕ)
    → 0 < a
    → Chain h right p (younger ++ (c ∷ older))
    → Apart a (younger ++ (c ∷ older))
    → (h c).left_sibling ≢ a
unfolding Apart Chain
Apart-left h a right p [] [] c pos (is, p', at_right, others, e) away = omega arith
Apart-left h a right p [] (x ∷ xs) c pos
      (is, p', at_right, others, (e, p'', at_right', others', rest)) (ne, (ne', away)) =
    λ z. ne' (sym z ∙ e)
Apart-left h a right p (y ∷ ys) older c pos (is, p', at_right, others, chain) (ne, away) =
    Apart-left h a y _ ys older c pos chain away

-- The right sibling of a frame behind the first is not one that is apart from the chain.
Apart-right :
    (h : Heap) (a right p : ℕ) (y : ℕ) (ys older : List ℕ) (c : ℕ)
    → Chain h right p (y ∷ (ys ++ (c ∷ older)))
    → Apart a (y ∷ (ys ++ (c ∷ older)))
    → (h c).right_sibling ≢ a
unfolding Apart Chain
Apart-right h a right p y [] older c
      (is, p', at_right, others, (is', p'', at_right', others', rest)) (ne, away) =
    λ z. ne (sym z ∙ at_right')
Apart-right h a right p y (z ∷ zs) older c (is, p', at_right, others, chain) (ne, away) =
    Apart-right h a y _ z zs older c chain away

-- The frame to the right of those that stay.
Unlinked-entry :
    (h h' : Heap) (parent c l r : ℕ) (younger older : List ℕ) (y : ℕ)
    → Unlinked h h' parent c l r
    → (h c).right_sibling ≡ r
    → 0 < y
    → y ≢ c
    → Apart y (younger ++ (c ∷ older))
    → Chain h y (h y).left_sibling (younger ++ (c ∷ older))
    → (h' y).left_sibling ≡ entry younger l (h y).left_sibling
unfolding Apart Chain entry
Unlinked-entry h h' parent c l r [] older y d er pos ne away (is, pos', at_right, others, rest) =
    let same_r : r ≡ y = sym er ∙ at_right in
    let end = d.right_end (omega arith) in rw (← same_r) end
Unlinked-entry h h' parent c l r (z ∷ zs) older y d er pos ne away chain =
    d.lefts y (λ w. ne (sym w)) (λ w. Apart-right h y y _ z zs older c chain away (er ∙ w))

-- What is left of a chain when a frame is taken out.
Unlinked-Chain :
    (h h' : Heap) (parent c l r : ℕ) (younger older : List ℕ) (right p : ℕ)
    → Unlinked h h' parent c l r
    → (h c).left_sibling ≡ l
    → (h c).right_sibling ≡ r
    → Apart right (younger ++ (c ∷ older))
    → Chain h right p (younger ++ (c ∷ older))
    → Chain h' right (entry younger l p) (younger ++ older)
unfolding Apart Chain entry
Unlinked-Chain h h' parent c l r [] [] right p d el er away (is, pos, at_right, others, e) =
    sym el ∙ e
Unlinked-Chain h h' parent c l r [] (x ∷ xs) right p d el er (ne, (ne', away))
      (is, pos, at_right, (nc, others), (e, pos', at_right', others', chain)) =
    let same_r : r ≡ right = sym er ∙ at_right in
    let same_l : l ≡ x = sym el ∙ e in
    (
      same_l,
      pos',
      (let end = d.left_end (omega arith) in rw (← same_l, ← same_r) end),
      others',
      rw (d.lefts x nc (λ z. ne' (sym same_r ∙ z))) (
          Chain-keep h h' c x right x (h x).left_sibling xs
            (λ z n n' n''.
              (d.lefts z n (λ w. n'' (sym same_r ∙ w)), d.rights z n (λ w. n' (sym same_l ∙ w))))
            others others' away chain),
    )
Unlinked-Chain h h' parent c l r (y ∷ ys) older right p d el er (ne, away)
      (is, pos, at_right, others, chain) =
    let (nc, old, kept) = Apart-remove y older ys c others in
    let nl : l ≢ y = λ w. Apart-left h y y _ ys older c pos chain others (el ∙ w) in
    (
      is,
      pos,
      d.rights y (λ w. nc (sym w)) nl ∙ at_right,
      kept,
      rw (Unlinked-entry h h' parent c l r ys older y d er pos nc others chain)
          (Unlinked-Chain h h' parent c l r ys older y (h y).left_sibling d el er others chain),
    )

-- The frame that is taken out of a chain is not its own sibling, and its siblings differ if they are
-- not both null.
own_siblings :
    (h : Heap) (right p : ℕ) (younger older : List ℕ) (c : ℕ)
    → Apart right (younger ++ (c ∷ older))
    → Chain h right p (younger ++ (c ∷ older))
    → ((h c).left_sibling ≢ c)
      × ((h c).right_sibling ≢ c)
      × (right ≢ 0 → (h c).right_sibling ≢ 0)
      × ((h c).right_sibling ≢ 0 → (h c).left_sibling ≢ (h c).right_sibling)
unfolding Apart Chain
own_siblings h right p [] [] c (ne, away) (is, pos, at_right, others, e) = (
  (λ w. omega arith),
  (λ w. ne (sym at_right ∙ w)),
  (λ nz w. nz (sym at_right ∙ w)),
  λ nz w. nz (sym w ∙ e),
)
own_siblings h right p [] (x ∷ xs) c (ne, (ne', away))
      (is, pos, at_right, (nc, others), (e, a', b', c', d')) =
    (
      (λ w. nc (sym w ∙ e)),
      (λ w. ne (sym at_right ∙ w)),
      (λ nz w. nz (sym at_right ∙ w)),
      λ nz w. ne' (sym at_right ∙ (sym w ∙ e)),
    )
own_siblings h right p (y ∷ ys) older c (ne, away) (is, pos, at_right, others, chain) =
    let (a, b, d, e) = own_siblings h y _ ys older c others chain in
    (a, b, (λ nz. d (λ z. omega arith)), e)

-- Which of the two branches `unlink_child` takes.
last_child :
    (h : Heap) (p l : ℕ) (younger older : List ℕ) (c : ℕ)
    → Chain h 0 p (younger ++ (c ∷ older))
    → ((h c).right_sibling ≡ 0 → (p ≡ c) × (entry younger l p ≡ l))
      × ((h c).right_sibling ≢ 0 → entry younger l p ≡ p)
unfolding Chain entry
last_child h p l [] older c (is, pos, at_right, others, rest) =
    ((λ z. (is, refl)), λ nz. absurd (nz at_right))
last_child h p l (y ∷ ys) older c (is, pos, at_right, others, chain) =
    let (a, b, d, e) = own_siblings h y _ ys older c others chain in
    ((λ z. absurd (d (λ w. omega arith) z)), λ nz. refl)

-- Taking any child out of a family succeeds. The other children stay, in their order, and the child's
-- own sibling pointers are null. The children of another parent stay as they are, if neither the child
-- nor one of its siblings is among them.
pub unlink_child_lem :
    (h : Heap) (parent c : ℕ) (younger older : List ℕ)
    → Children h parent (younger ++ (c ∷ older))
    → (h' : Heap) × (unlink_child parent c h ≡ some h')
      × Children h' parent (younger ++ older)
      × ((h' c).left_sibling ≡ 0)
      × ((h' c).right_sibling ≡ 0)
      × ((q : ℕ) (ds : List ℕ)
          → parent ≢ q
          → Children h q ds
          → Apart c ds
          → Apart (h c).left_sibling ds
          → Apart (h c).right_sibling ds
          → Children h' q ds)
unfolding Children
unlink_child_lem h parent c younger older chain =
    let l = (h c).left_sibling in
    let r = (h c).right_sibling in
    let p = (h parent).rightmost_child in
    let away = Chain-Apart h 0 p (younger ++ (c ∷ older)) chain in
    let (nl, nr, _, nlr) = own_siblings h 0 p younger older c away chain in
    let (at_last, at_inner) = last_child h p l younger older c chain in
    elim (ℕ_discrete r 0) [
      | yes z ↦
          let (is, first) = at_last z in
          let (h', e, d) = unlink_child-at_end h parent c l refl z (λ w. nl (sym w)) is in
          (
            h',
            e,
            Chain-from h' 0 _ _ (younger ++ older) (first ∙ sym (d.at_end refl))
                (Unlinked-Chain h h' parent c l 0 younger older 0 p d refl z away chain),
            d.cleared.0,
            d.cleared.1,
            λ q ds other chain' a b b'. rw (d.families q other) (
                Chain-keep h h' c l 0 0 (h q).rightmost_child ds
                  (λ x n n' n''. (d.lefts x n n'', d.rights x n n')) a b
                  (Chain-Apart h 0 _ ds chain') chain'),
          )
      | no nz ↦
          let (h', e, d) =
            unlink_child-inside h parent c l r refl refl (λ w. nl (sym w)) (λ w. nr (sym w))
              (nlr nz) nz in
          (
            h',
            e,
            Chain-from h' 0 _ _ (younger ++ older) (at_inner nz ∙ sym (d.inside nz))
                (Unlinked-Chain h h' parent c l r younger older 0 p d refl refl away chain),
            d.cleared.0,
            d.cleared.1,
            λ q ds other chain' a b b'. rw (d.families q other) (
                Chain-keep h h' c l r 0 (h q).rightmost_child ds
                  (λ x n n' n''. (d.lefts x n n'', d.rights x n n')) a b b' chain'),
          )
    ]
