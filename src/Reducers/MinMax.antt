-- ===== src/Reducers/MinMax.antt =====
-- The views of cilk-l/include/cilk/reducer_min_max.h, for maximum and minimum, with an index or without
-- one. `compare` says that its second argument is better: `less` for a maximum, and its
-- `reverse_predicate` for a minimum. A view's value is compared by `comp_value`: it is the value itself,
-- or the second half of an index and a value.
use cilk_l.Prelude.{
  ◌≡◌, refl, Bool, true, false, not, ◌&&◌, ◌||◌, List, [], ◌∷◌, ◌++◌, if◌then◌else◌, ap, ◌∙◌, sym,
  ltb, arith, ◌≤◌, Bool-cases, inl, inr,
}

-- `view_content` and `index_view_content`.
pub record View {ℓ} (A : Type ℓ) : Type ℓ where
  pub value : A
  pub is_set : Bool

-- `x` before `y` in the order from high to low.
unfoldable pub reverse_predicate {ℓ} : {K : Type ℓ} → (K → K → Bool) → K → K → Bool
reverse_predicate compare x y = compare y x

-- A strict weak order.
pub record IsOrder {K : Type 0} (compare : K → K → Bool) : Type 0 where
  pub transitive : (a b c : K) → compare a b ≡ true → compare b c ≡ true → compare a c ≡ true
  pub weak : (a b c : K) → compare a b ≡ false → compare b c ≡ false → compare a c ≡ false

pub reverse-IsOrder :
    {K : Type 0} (compare : K → K → Bool) → IsOrder compare → IsOrder (reverse_predicate compare)
unfolding reverse_predicate
reverse-IsOrder compare o = record {
  transitive = λ a b c x y. o.transitive c b a y x;
  weak = λ a b c x y. o.weak c b a y x;
}

pub ltb-IsOrder : IsOrder ltb
ltb-IsOrder = record { transitive = λ a b c x y. ground arith; weak = λ a b c x y. ground arith }

module _ {A K : Type 0} (comp_value : A → K) (compare : K → K → Bool) where
  -- The view of a new strand, with the value that its constructor gives it.
  abbrev pub unset : A → View A
  unset a = record { value = a; is_set = false }

  -- With the optimisation (`optimized`) the initial value stands for the one of no update.
  unfoldable pub has_value : Bool → View A → Bool
  has_value optimized v = if optimized then true else v.is_set

  unfoldable pub reduce : View A → View A → View A
  reduce this other =
      if other.is_set
        && (not this.is_set || compare (comp_value this.value) (comp_value other.value))
      then record { value = other.value; is_set = true }
      else this

  unfoldable pub calc : Bool → A → View A → View A
  unfolding has_value
  calc optimized x v =
      if not (has_value optimized v) || compare (comp_value v.value) (comp_value x)
      then record { value = x; is_set = true }
      else record v { is_set = true }

  -- `calc` of a proxy, which `max_of` and `min_of` make, and the assignment of a proxy to the view.
  unfoldable pub proxy_calc : A → A → A
  proxy_calc x m = if compare (comp_value m) (comp_value x) then x else m

  abbrev pub assign : Bool → A → View A → View A
  assign = calc

  abbrev pub view_set_value : A → View A → View A
  view_set_value a v = record { value = a; is_set = true }

  -- The updates of a strand, one after the other.
  abbrev pub calc_all : Bool → List A → View A → View A
  calc_all optimized [] v = v
  calc_all optimized (x ∷ xs) v = calc_all optimized xs (calc optimized x v)

  module _ (order : IsOrder compare) where
    pub reduce_assoc : (a b c : View A) → reduce (reduce a b) c ≡ reduce a (reduce b c)
    unfolding reduce
    reduce_assoc a b c = ground (
      arith,
      order.transitive (comp_value a.value) (comp_value b.value) (comp_value c.value),
      order.weak (comp_value a.value) (comp_value b.value) (comp_value c.value),
    )

    -- One update of the right view is one update of the reduced view.
    reduce-calc :
        (x : A) (a b : View A)
        → b.is_set ≡ true
        → reduce a (calc false x b) ≡ calc false x (reduce a b)
    unfolding reduce calc has_value
    reduce-calc x a b set = ground (
      arith,
      set,
      order.transitive (comp_value a.value) (comp_value b.value) (comp_value x),
      order.weak (comp_value a.value) (comp_value b.value) (comp_value x),
    )

    calc-set : (x : A) (v : View A) → (calc false x v).is_set ≡ true
    unfolding calc has_value
    calc-set x v = ground arith

    reduce-calc_all-set :
        (ys : List A) (a b : View A)
        → b.is_set ≡ true
        → reduce a (calc_all false ys b) ≡ calc_all false ys (reduce a b)
    reduce-calc_all-set [] a b set = refl
    reduce-calc_all-set (y ∷ ys) a b set =
        reduce-calc_all-set ys a (calc false y b) (calc-set y b)
        ∙ ap (calc_all false ys) (reduce-calc y a b set)

    reduce-unset : (a : View A) (z : A) → reduce a (unset z) ≡ a
    unfolding reduce
    reduce-unset a z = refl

    reduce-first : (y z : A) (a : View A) → reduce a (calc false y (unset z)) ≡ calc false y a
    unfolding reduce calc has_value
    reduce-first y z a = ground arith

    -- An assignment of a chain of proxies makes the updates one after the other.
    pub assign-proxy_calc :
        (m x : A) (v : View A) → assign false (proxy_calc x m) v ≡ calc false x (calc false m v)
    unfolding calc has_value proxy_calc
    assign-proxy_calc m x v = ground (
      arith,
      order.transitive (comp_value v.value) (comp_value m) (comp_value x),
      order.weak (comp_value v.value) (comp_value m) (comp_value x),
    )

    -- If `compare` is a strict weak order, reducing the view of a strand, without the optimisation, into
    -- the one to its left gives what the left strand would have if it had made the updates itself, one
    -- after the other: of equally good ones the first is kept.
    pub reduce-calc_all :
        (ys : List A) (a : View A) (z : A)
        → reduce a (calc_all false ys (unset z)) ≡ calc_all false ys a
    reduce-calc_all [] a z = reduce-unset a z
    reduce-calc_all (y ∷ ys) a z =
        reduce-calc_all-set ys a (calc false y (unset z)) (calc-set y (unset z))
        ∙ ap (calc_all false ys) (reduce-first y z a)

  -- Once a view is set the optimisation changes nothing.
  calc_all-set :
      (xs : List A) (v : View A) → v.is_set ≡ true → calc_all true xs v ≡ calc_all false xs v
  calc_all-set [] v set = refl
  calc_all-set (x ∷ xs) v set =
      let same : calc true x v ≡ calc false x v = unfold calc has_value in ground (arith, set) in
      let set' : (calc true x v).is_set ≡ true = unfold calc has_value in ground (arith, set) in
      calc_all-set xs (calc true x v) set' ∙ ap (calc_all false xs) same

  -- Some element is better than `z`.
  unfoldable pub any_better : A → List A → Bool
  any_better z [] = false
  any_better z (x ∷ xs) = compare (comp_value z) (comp_value x) || any_better z xs

  module _ (order : IsOrder compare) (z : A) where
    abbrev z_set : View A
    z_set = record { value = z; is_set = true }

    -- `w` is what the updates without the optimisation have made of a view, no better than `z`.
    calc_all-behind :
        (xs : List A) (w : View A)
        → w.is_set ≡ true
        → compare (comp_value z) (comp_value w.value) ≡ false
        → calc_all true xs (record { value = z; is_set = true })
          ≡ (if any_better z xs then calc_all false xs w else record { value = z; is_set = true })
    unfolding any_better
    calc_all-behind [] w set behind = refl
    calc_all-behind (x ∷ xs) w set behind =
        elim (Bool-cases (compare (comp_value z) (comp_value x))) [
          | inl better ↦
              let taken : calc false x w ≡ record { value = x; is_set = true } =
                unfold calc has_value in
                ground (arith, order.weak (comp_value z) (comp_value w.value) (comp_value x)) in
              let first : calc true x z_set ≡ record { value = x; is_set = true } =
                unfold calc has_value in ground arith in
              ap (calc_all true xs) first
              ∙ calc_all-set xs (record { value = x; is_set = true }) refl
              ∙ rw better (ap (calc_all false xs) (sym taken))
          | inr worse ↦
              let kept : calc true x z_set ≡ z_set = unfold calc has_value in ground arith in
              let set' : (calc false x w).is_set ≡ true = unfold calc has_value in ground arith in
              let still : compare (comp_value z) (comp_value (calc false x w).value) ≡ false =
                unfold calc has_value in ground arith in
              ap (calc_all true xs) kept ∙ rw worse (calc_all-behind xs (calc false x w) set' still)
        ]

    -- If `compare` is a strict weak order, what the optimisation makes of the updates of a new strand, of
    -- which there is at least one: what is made without it if one of them is better than the initial
    -- value, else the initial value, as if it had been given. An index then is none of an update: it is
    -- the one that the view was made with, as the header documents.
    pub calc_all-optimized :
        (x : A) (xs : List A) (a : A)
        → calc_all true (x ∷ xs) (unset z) ≡ (
            if any_better z (x ∷ xs)
            then calc_all false (x ∷ xs) (unset a)
            else record { value = z; is_set = true })
    calc_all-optimized x xs a = elim (Bool-cases (compare (comp_value z) (comp_value x))) [
      | inl better ↦
          let first : calc true x (unset z) ≡ record { value = x; is_set = true } =
            unfold calc has_value in ground arith in
          let given : calc false x (unset a) ≡ record { value = x; is_set = true } =
            unfold calc has_value in ground arith in
          ap (calc_all true xs) first
          ∙ calc_all-set xs (record { value = x; is_set = true }) refl
          ∙ unfold any_better in rw better (ap (calc_all false xs) (sym given))
      | inr worse ↦
          let kept : calc true x (unset z) ≡ z_set = unfold calc has_value in ground arith in
          let given : calc false x (unset a) ≡ record { value = x; is_set = true } =
            unfold calc has_value in ground arith in
          ap (calc_all true xs) kept
          ∙ calc_all-behind xs (record { value = x; is_set = true }) refl worse
          ∙ unfold any_better in
            rw worse (ap (λ w. if any_better z xs then calc_all false xs w else z_set) (sym given))
    ]

  -- Every element of a list is worse than `x`.
  unfoldable pub AllWorse : A → List A → Type 0
  AllWorse x [] = 0 ≤ 0
  AllWorse x (u ∷ us) = (compare (comp_value u) (comp_value x) ≡ true) × AllWorse x us

  -- No element of a list is better than `x`.
  unfoldable pub NoneBetter : A → List A → Type 0
  NoneBetter x [] = 0 ≤ 0
  NoneBetter x (v ∷ vs) = (compare (comp_value x) (comp_value v) ≡ false) × NoneBetter x vs

  calc_all-kept :
      (x : A) (vs : List A)
      → NoneBetter x vs
      → calc_all false vs (record { value = x; is_set = true })
        ≡ record { value = x; is_set = true }
  unfolding NoneBetter
  calc_all-kept x [] h = refl
  calc_all-kept x (v ∷ vs) (worse, h) =
      let kept : calc false v (record { value = x; is_set = true })
          ≡ record { value = x; is_set = true } =
        unfold calc has_value in ground arith in
      ap (calc_all false vs) kept ∙ calc_all-kept x vs h

  calc_all-first :
      (x : A) (us vs : List A) (v : View A)
      → (v.is_set ≡ true → compare (comp_value v.value) (comp_value x) ≡ true)
      → AllWorse x us
      → NoneBetter x vs
      → calc_all false (us ++ x ∷ vs) v ≡ record { value = x; is_set = true }
  unfolding AllWorse
  calc_all-first x [] vs v before worse rest =
      let taken : calc false x v ≡ record { value = x; is_set = true } =
        unfold calc has_value in ground (arith, before) in
      ap (calc_all false vs) taken ∙ calc_all-kept x vs rest
  calc_all-first x (u ∷ us) vs v before (uw, worse) rest =
      calc_all-first x us vs (calc false u v) (λ e. unfold calc has_value in ground (arith, before))
        worse rest

  -- Without the optimisation a strand's view is the first of its best updates: the one that all
  -- earlier ones are worse than, and no later one is better than.
  pub calc_all_lem :
      (x : A) (us vs : List A) (z : A)
      → AllWorse x us
      → NoneBetter x vs
      → calc_all false (us ++ x ∷ vs) (unset z) ≡ record { value = x; is_set = true }
  calc_all_lem x us vs z worse rest = calc_all-first x us vs (unset z) (λ e. absurd (cc)) worse rest
