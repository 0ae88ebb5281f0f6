-- ===== src/Reducers/Sums.antt =====
-- The view of cilk-l/include/cilk/reducer_opadd.h for an unsigned type of `w` bits.
use native.Mathlib.Nat.{mod-add-mod, add-mod-mod, mod-eq_of_lt}
use cilk_l.Prelude.{ℕ, ◌+◌, ◌-◌, ◌%◌, ◌^◌, ◌<◌, ◌≡◌, refl, sym, ap, ◌∙◌, List, [], ◌∷◌, arith}

-- The updates that a view offers: `+=`, `-=`, `++` and `--`.
pub data Update : Type 0 where
  add_to subtract_from : ℕ → Update
  increment decrement : Update

module _ (w : ℕ) where
  pub reduce : ℕ → ℕ → ℕ
  reduce this right = (this + right) % 2 ^ w

  -- `x` is a number of the type.
  pub update_view : Update → ℕ → ℕ
  update_view (add_to x) m = (m + x) % 2 ^ w
  update_view (subtract_from x) m = (m + (2 ^ w - x)) % 2 ^ w
  update_view increment m = (m + 1) % 2 ^ w
  update_view decrement m = (m + (2 ^ w - 1)) % 2 ^ w

  abbrev pub update_all : List Update → ℕ → ℕ
  update_all [] m = m
  update_all (u ∷ us) m = update_all us (update_view u m)

  shift : (a b c n : ℕ) → (a + (b + c) % n) % n ≡ ((a + b) % n + c) % n
  shift a b c n =
      add-mod-mod a (b + c) n ∙ ap (λ t. t % n) (omega arith) ∙ sym (mod-add-mod (a + b) n c)

  reduce-update_view :
      (u : Update) (a b : ℕ) → reduce a (update_view u b) ≡ update_view u (reduce a b)
  unfolding reduce update_view
  reduce-update_view (add_to x) a b = shift a b x (2 ^ w)
  reduce-update_view (subtract_from x) a b = shift a b (2 ^ w - x) (2 ^ w)
  reduce-update_view increment a b = shift a b 1 (2 ^ w)
  reduce-update_view decrement a b = shift a b (2 ^ w - 1) (2 ^ w)

  reduce-update_all_from :
      (us : List Update) (a b : ℕ) → reduce a (update_all us b) ≡ update_all us (reduce a b)
  reduce-update_all_from [] a b = refl
  reduce-update_all_from (u ∷ us) a b =
      reduce-update_all_from us a (update_view u b) ∙ ap (update_all us) (reduce-update_view u a b)

  -- Reducing the view of a new strand into a number of the type gives what the updates make of that
  -- number, one after the other.
  pub reduce-update_all :
      (us : List Update) (a : ℕ) → a < 2 ^ w → reduce a (update_all us 0) ≡ update_all us a
  unfolding reduce
  reduce-update_all us a fits =
      reduce-update_all_from us a 0
      ∙ ap (update_all us) (ap (λ t. t % 2 ^ w) (omega arith) ∙ mod-eq_of_lt fits)

  pub reduce_assoc : (a b c : ℕ) → reduce (reduce a b) c ≡ reduce a (reduce b c)
  unfolding reduce
  reduce_assoc a b c = sym (shift a b c (2 ^ w))
