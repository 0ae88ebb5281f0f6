-- ===== src/Reducers/Vectors.antt =====
-- The view of cilk-l/include/cilk/reducer_vector.h: a vector with a list of the vectors to its left,
-- which are put together only when the value is read. That of reducer_string.h is the same, of
-- characters.
use mathlib.Core.List.{append_assoc, append-nil}
use cilk_l.Prelude.{
  ℕ, ◌≡◌, refl, sym, ap, ◌∙◌, Bool, true, false, not, ◌||◌, List, [], ◌∷◌, ◌++◌, if◌then◌else◌,
  replicate,
}

pub record VectorView (A : Type 0) : Type 0 where
  pub vector : List A
  pub list : List (List A)

abbrev pub empty : {A : Type 0} → List A → Bool
empty [] = true
empty (x ∷ xs) = false

-- A vector that is not empty goes to the end of the list.
abbrev pub keep : {A : Type 0} → List A → List (List A) → List (List A)
keep vector list = if not (empty vector) then list ++ vector ∷ [] else list

module _ {A : Type 0} where
  -- The loop of `flatten` that fills `result`.
  abbrev pub insert_parts : List A → List (List A) → List A
  insert_parts result [] = result
  insert_parts result (i ∷ is) = insert_parts (result ++ i) is

  unfoldable pub flatten : VectorView A → VectorView A
  flatten v =
      if empty v.list then v else record { vector = insert_parts [] v.list ++ v.vector; list = [] }

  -- Both views after a reduction: the other one is left with what was not taken over.
  unfoldable pub reduce : VectorView A → VectorView A → VectorView A × VectorView A
  reduce this other =
      let left = if not (empty this.vector) then [] else this.vector in
      if not (empty other.vector) || not (empty other.list)
      then (
        record { vector = other.vector; list = keep this.vector this.list ++ other.list },
        record { vector = left; list = [] },
      )
      else (this, other)

  pub view_get_value : VectorView A → List A
  unfolding flatten
  view_get_value v = (flatten v).vector

  -- The view and the vector that is moved in or out; `same` says if their allocators are equal.
  pub view_move_in : Bool → VectorView A → List A → VectorView A × List A
  view_move_in same v x =
      if same
      then (record { vector = x; list = [] }, [])
      else (record { vector = x; list = [] }, [])

  pub view_move_out : Bool → VectorView A → List A → VectorView A × List A
  unfolding flatten
  view_move_out same v x =
      let f = flatten v in
      if same then (record f { vector = x }, f.vector) else (record f { vector = [] }, f.vector)

  abbrev pub push_back : A → VectorView A → VectorView A
  push_back x v = record v { vector = v.vector ++ x ∷ [] }

  abbrev pub insert_copies : ℕ → A → VectorView A → VectorView A
  insert_copies n x v = record v { vector = v.vector ++ replicate n x }

  abbrev pub insert_range : List A → VectorView A → VectorView A
  insert_range xs v = record v { vector = v.vector ++ xs }

  -- What a view stands for.
  unfoldable pub contents : VectorView A → List A
  contents v = insert_parts [] v.list ++ v.vector

  insert_parts-start :
      (xs : List A) (is : List (List A)) → insert_parts xs is ≡ xs ++ insert_parts [] is
  insert_parts-start xs [] = sym (append-nil xs)
  insert_parts-start xs (i ∷ is) =
      insert_parts-start (xs ++ i) is
      ∙ append_assoc xs i (insert_parts [] is)
      ∙ ap (λ r. xs ++ r) (sym (insert_parts-start i is))

  insert_parts-append :
      (is js : List (List A))
      → insert_parts [] (is ++ js) ≡ insert_parts [] is ++ insert_parts [] js
  insert_parts-append [] js = refl
  insert_parts-append (i ∷ is) js =
      insert_parts-start i (is ++ js)
      ∙ ap (λ r. i ++ r) (insert_parts-append is js)
      ∙ sym (append_assoc i (insert_parts [] is) (insert_parts [] js))
      ∙ ap (λ r. r ++ insert_parts [] js) (sym (insert_parts-start i is))

  -- The list of the reduced view, if its own vector was moved to it.
  insert_parts-keep :
      (xs : List A) (is : List (List A)) → insert_parts [] (keep xs is) ≡ insert_parts [] is ++ xs
  insert_parts-keep [] is = sym (append-nil (insert_parts [] is))
  insert_parts-keep (x ∷ xs) is = insert_parts-append is ((x ∷ xs) ∷ [])

  moved :
      (xs ys : List A) (is js : List (List A))
      → insert_parts [] (keep xs is ++ js) ++ ys
        ≡ (insert_parts [] is ++ xs) ++ (insert_parts [] js ++ ys)
  moved xs ys is js =
      ap (λ r. r ++ ys) (insert_parts-append (keep xs is) js)
      ∙ append_assoc (insert_parts [] (keep xs is)) (insert_parts [] js) ys
      ∙ ap (λ r. r ++ (insert_parts [] js ++ ys)) (insert_parts-keep xs is)

  contents-reduce_parts :
      (xs ys : List A) (is js : List (List A))
      → contents (reduce (record { vector = xs; list = is }) (record { vector = ys; list = js })).0
        ≡ (insert_parts [] is ++ xs) ++ (insert_parts [] js ++ ys)
  unfolding contents reduce
  contents-reduce_parts xs [] is [] = sym (append-nil (insert_parts [] is ++ xs))
  contents-reduce_parts xs [] is (j ∷ js) = moved xs [] is (j ∷ js)
  contents-reduce_parts xs (y ∷ ys) is js = moved xs (y ∷ ys) is js

  -- A view stands for the vectors in its list, one after the other, and its own vector. Whatever is
  -- empty of two views, the reduced view stands for what the left one stands for, followed by what the
  -- right one stands for.
  pub contents-reduce :
      (this other : VectorView A) → contents (reduce this other).0 ≡ contents this ++ contents other
  unfolding contents
  contents-reduce this other = contents-reduce_parts this.vector other.vector this.list other.list

  contents-flatten :
      (xs : List A) (is : List (List A))
      → ((flatten (record { vector = xs; list = is })).vector ≡ insert_parts [] is ++ xs)
        × ((flatten (record { vector = xs; list = is })).list ≡ [])
  unfolding flatten
  contents-flatten xs [] = (refl, refl)
  contents-flatten xs (i ∷ is) = (refl, refl)

  -- What the program reads is what the view stands for, and reading it does not change that.
  pub view_get_value_lem :
      (v : VectorView A) → (view_get_value v ≡ contents v) × (contents (flatten v) ≡ contents v)
  unfolding view_get_value contents
  view_get_value_lem v =
      let (same, none_left) = contents-flatten v.vector v.list in (same, rw none_left same)

  keep-append : (ys : List A) (is js : List (List A)) → keep ys (is ++ js) ≡ is ++ keep ys js
  keep-append [] is js = refl
  keep-append (y ∷ ys) is js = append_assoc is js ((y ∷ ys) ∷ [])

  kept :
      (xs ys zs : List A) (is js ks : List (List A))
      → ◌≡◌ {A = VectorView A}
          (record { vector = zs; list = keep ys (keep xs is ++ js) ++ ks })
          (record { vector = zs; list = keep xs is ++ (keep ys js ++ ks) })
  kept xs ys zs is js ks =
      ap (λ l. record { vector = zs; list = l })
        (ap (λ l. l ++ ks) (keep-append ys (keep xs is) js)
          ∙ append_assoc (keep xs is) (keep ys js) ks)

  assoc_parts :
      (xs ys zs : List A) (is js ks : List (List A))
      → (reduce
          (reduce (record { vector = xs; list = is }) (record { vector = ys; list = js })).0
          (record { vector = zs; list = ks })).0
        ≡ (reduce
            (record { vector = xs; list = is })
            (reduce (record { vector = ys; list = js }) (record { vector = zs; list = ks })).0).0
  unfolding reduce
  assoc_parts xs ys [] is js [] = refl
  assoc_parts xs [] (z ∷ zs) is [] ks = refl
  assoc_parts xs [] [] is [] (k ∷ ks) = refl
  assoc_parts xs (y ∷ ys) (z ∷ zs) is js ks = kept xs (y ∷ ys) (z ∷ zs) is js ks
  assoc_parts xs [] (z ∷ zs) is (j ∷ js) ks = kept xs [] (z ∷ zs) is (j ∷ js) ks
  assoc_parts xs [] [] is (j ∷ js) (k ∷ ks) = kept xs [] [] is (j ∷ js) (k ∷ ks)
  assoc_parts xs (y ∷ ys) [] is [] (k ∷ ks) = kept xs (y ∷ ys) [] is [] (k ∷ ks)
  assoc_parts xs (y ∷ ys) [] is (j ∷ js) (k ∷ ks) = kept xs (y ∷ ys) [] is (j ∷ js) (k ∷ ks)

  -- Reductions in another order make the same vectors.
  pub reduce_assoc :
      (a b c : VectorView A) → (reduce (reduce a b).0 c).0 ≡ (reduce a (reduce b c).0).0
  reduce_assoc a b c = assoc_parts a.vector b.vector c.vector a.list b.list c.list
