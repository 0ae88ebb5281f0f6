-- ===== src/Reducers/Lists.antt =====
-- The views of cilk-l/include/cilk/reducer_list.h, which append to a list or prepend to it. A list is
-- its elements and its allocator; an iterator into a list is where it divides the list.
use mathlib.Core.List.{append_assoc, append-nil}
use cilk_l.Prelude.{
  ℕ, zero, suc, ◌≡◌, ◌≢◌, refl, sym, ap, ◌∙◌, List, [], ◌∷◌, ◌++◌, if◌then◌else◌, ◌==◌, Outcome, ok,
  abort, ◌>>◌, check, arith, ==_iff,
}

pub record StdList (A : Type 0) : Type 0 where
  pub allocator : ℕ
  pub elements : List A

-- A list in three parts: before the first of two iterators, between them, and after the second.
pub record Divided (A : Type 0) : Type 0 where
  pub before : List A
  pub between : List A
  pub after : List A

module _ {A : Type 0} where
  abbrev pub with_elements : StdList A → List A → StdList A
  with_elements l xs = record l { elements = xs }

  abbrev pub push_back : A → StdList A → StdList A
  push_back x l = with_elements l (l.elements ++ x ∷ [])

  abbrev pub push_front : A → StdList A → StdList A
  push_front x l = with_elements l (x ∷ l.elements)

  abbrev pub insert_back : List A → StdList A → StdList A
  insert_back xs l = with_elements l (l.elements ++ xs)

  abbrev pub insert_front : List A → StdList A → StdList A
  insert_front xs l = with_elements l (xs ++ l.elements)

  -- Both lists after a splice of the whole of `x`.
  unfoldable pub splice_back : StdList A → StdList A → StdList A × StdList A
  splice_back l x =
      if x.allocator == l.allocator
      then (with_elements l (l.elements ++ x.elements), with_elements x [])
      else (insert_back x.elements l, with_elements x [])

  -- The elements from one position up to another.
  abbrev pub range : ℕ → ℕ → List A → List A
  range first zero xs = []
  range first (suc last) [] = []
  range zero (suc last) (x ∷ xs) = x ∷ range zero last xs
  range (suc first) (suc last) (x ∷ xs) = range first last xs

  -- From a list with another allocator the range from `begin` to `begin` is inserted.
  unfoldable pub splice_front : StdList A → StdList A → StdList A × StdList A
  splice_front l x =
      if x.allocator == l.allocator
      then (with_elements l (x.elements ++ l.elements), with_elements x [])
      else (insert_front (range 0 0 x.elements) l, with_elements x [])

  -- A splice of what is between two iterators, and what is left of the other list.
  unfoldable pub splice_range_back : ℕ → StdList A → Divided A → StdList A × List A
  splice_range_back allocator l x =
      if allocator == l.allocator
      then (with_elements l (l.elements ++ x.between), x.before ++ x.after)
      else (insert_back x.between l, x.before ++ x.after)

  unfoldable pub splice_range_front : ℕ → StdList A → Divided A → StdList A × List A
  splice_range_front allocator l x =
      if allocator == l.allocator
      then (with_elements l (x.between ++ l.elements), x.before ++ x.after)
      else (insert_front x.between l, x.before ++ x.after)

  unfoldable pub reduce_append : StdList A → StdList A → Outcome (StdList A)
  reduce_append l right =
      check (l.allocator == right.allocator) >> ok (with_elements l (l.elements ++ right.elements))

  unfoldable pub reduce_prepend : StdList A → StdList A → Outcome (StdList A)
  reduce_prepend l right =
      check (l.allocator == right.allocator) >> ok (with_elements l (right.elements ++ l.elements))

  -- The updates of a strand: pushes to the back, or pushes to the front.
  abbrev pub push_all_back : List A → StdList A → StdList A
  push_all_back [] l = l
  push_all_back (x ∷ xs) l = push_all_back xs (push_back x l)

  abbrev pub push_all_front : List A → StdList A → StdList A
  push_all_front [] l = l
  push_all_front (x ∷ xs) l = push_all_front xs (push_front x l)

  append_all :
      (ys : List A) (l r : StdList A)
      → l.allocator ≡ r.allocator
      → reduce_append l (push_all_back ys r)
        ≡ ok (push_all_back ys (with_elements l (l.elements ++ r.elements)))
  append_all [] l r same = unfold reduce_append in rw ((==_iff l.allocator r.allocator).1 same) refl
  append_all (y ∷ ys) l r same =
      append_all ys l (push_back y r) same
      ∙ ap (λ xs. ok (push_all_back ys (with_elements l xs)))
          (sym (append_assoc l.elements r.elements (y ∷ [])))

  prepend_all :
      (ys : List A) (l r : StdList A)
      → l.allocator ≡ r.allocator
      → reduce_prepend l (push_all_front ys r)
        ≡ ok (push_all_front ys (with_elements l (r.elements ++ l.elements)))
  prepend_all [] l r same =
      unfold reduce_prepend in rw ((==_iff l.allocator r.allocator).1 same) refl
  prepend_all (y ∷ ys) l r same = prepend_all ys l (push_front y r) same

  -- If the views have one allocator, reducing the list of a new strand into the one to its left gives
  -- what the left strand would have if it had made the pushes itself, for the views that append and for
  -- the ones that prepend. If they have not, both reductions fail with an assertion.
  pub reduce-push_all :
      (ys : List A) (l : StdList A) (allocator : ℕ)
      → (l.allocator ≡ allocator
          → (reduce_append l (push_all_back ys (record { allocator = allocator; elements = [] }))
              ≡ ok (push_all_back ys l))
            × (reduce_prepend l
                  (push_all_front ys (record { allocator = allocator; elements = [] }))
                ≡ ok (push_all_front ys l)))
        × ((r : StdList A)
            → l.allocator ≢ r.allocator
            → (reduce_append l r ≡ abort) × (reduce_prepend l r ≡ abort))
  unfolding reduce_append reduce_prepend
  reduce-push_all ys l allocator = (
    (λ same. (
      append_all ys l (record { allocator = allocator; elements = [] }) same
          ∙ ap (λ xs. ok (push_all_back ys (with_elements l xs))) (append-nil l.elements),
      prepend_all ys l (record { allocator = allocator; elements = [] }) same,
    )),
    λ r other. (ground arith, ground arith),
  )
