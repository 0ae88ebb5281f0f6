-- ===== src/Reducers/Serial.antt =====
-- Reducers under the reducer protocol: what the views of reducer_min_max.h and reducer_vector.h come to
-- when the children of a stolen frame return in any order.
use mathlib.Core.List.{append-nil}
use cilk_l.Prelude.{ℕ, ◌≡◌, refl, sym, ap, ◌∙◌, Option, none, some, List, [], ◌∷◌, ◌++◌}
use cilk_l.Reduction.{Child, Family, merge, run}
use cilk_l.Reduction.Order.{IsLoaded}
use cilk_l.ReducerMap.Serial.{Values, pointwise, pointwise_assoc, value_at, serial_at, run_values}

-- `means` is what a view stands for, and `after` what an update makes of it.
module _ {V B X : Type 0} (reduce : ℕ → V → V → V) (base : ℕ → ℕ) (means : V → B)
    (after : X → B → B) where
  -- Updates in the order in which the program makes them.
  abbrev pub after_all : List X → B → B
  after_all [] b = b
  after_all (x ∷ xs) b = after_all xs (after x b)

  -- Reducing the view into one to its left is worth the updates `xs`.
  abbrev pub IsWorth : ℕ → V → List X → Type 0
  IsWorth k v xs = (a : V) → means (reduce k a v) ≡ after_all xs (means a)

  -- The same for a view that there may be none of.
  abbrev pub IsWorth? : ℕ → Option V → List X → Type 0
  IsWorth? k none xs = xs ≡ []
  IsWorth? k (some v) xs = IsWorth k v xs

  -- The updates of the children, those in the maps and those to the right of each.
  abbrev pub AllWorth : ℕ → List (Child (Values reduce base)) → List (List X × List X) → Type 0
  AllWorth k [] [] = Unit {0}
  AllWorth k [] (l ∷ logs) = ⊥
  AllWorth k (c ∷ cs) [] = ⊥
  AllWorth k (c ∷ cs) (l ∷ logs) =
      IsWorth? (base k) (value_at reduce base k c.map) l.0
      × IsWorth? (base k) (value_at reduce base k c.right) l.1
      × AllWorth k cs logs

  abbrev pub in_order : List (List X × List X) → List X
  in_order [] = []
  in_order (l ∷ logs) = l.0 ++ (l.1 ++ in_order logs)

  after_all-append :
      (xs ys : List X) (b : B) → after_all (xs ++ ys) b ≡ after_all ys (after_all xs b)
  after_all-append [] ys b = refl
  after_all-append (x ∷ xs) ys b = after_all-append xs ys (after x b)

  module _
      (assoc : (k : ℕ) (a b c : V) → reduce k (reduce k a b) c ≡ reduce k a (reduce k b c)) where
    merge-IsWorth? :
        (k : ℕ) (a b : Option V) (xs ys : List X)
        → IsWorth? k a xs
        → IsWorth? k b ys
        → IsWorth? k (merge (reduce k) a b) (xs ++ ys)
    unfolding merge
    merge-IsWorth? k none none xs ys wx wy = rw (wx, wy) refl
    merge-IsWorth? k none (some b) xs ys wx wy = rw wx wy
    merge-IsWorth? k (some a) none xs ys wx wy = rw (wy, append-nil xs) wx
    merge-IsWorth? k (some a) (some b) xs ys wx wy = λ v.
        sym (ap means (assoc k v a b))
        ∙ wy (reduce k v a)
        ∙ ap (after_all ys) (wx v)
        ∙ sym (after_all-append xs ys (means v))

    serial-IsWorth? :
        (k : ℕ) (cs : List (Child (Values reduce base))) (logs : List (List X × List X))
        → AllWorth k cs logs
        → IsWorth? (base k) (serial_at reduce base k cs) (in_order logs)
    serial-IsWorth? k [] [] w = refl
    serial-IsWorth? k [] (l ∷ logs) w = absurd w
    serial-IsWorth? k (c ∷ cs) [] w = absurd w
    serial-IsWorth? k (c ∷ cs) (l ∷ logs) (wm, wr, w) =
        merge-IsWorth? (base k) (value_at reduce base k c.map)
          (merge (reduce (base k)) (value_at reduce base k c.right) (serial_at reduce base k cs))
          l.0 (l.1 ++ in_order logs) wm
          (merge-IsWorth? (base k) (value_at reduce base k c.right) (serial_at reduce base k cs) l.1
            (in_order logs) wr (serial-IsWorth? k cs logs w))

    last :
        (o final : Option V) (k : ℕ) (first : V) (xs : List X)
        → IsWorth? k o xs
        → final ≡ merge (reduce k) (some first) o
        → (v : V) × (final ≡ some v) × (means v ≡ after_all xs (means first))
    unfolding merge
    last none final k first xs w is = (first, is, rw w refl)
    last (some b) final k first xs w is = (reduce k first b, is, w first)

    -- Let reducing be associative for every hyperobject, and let each child that is inside the slow path
    -- have a map. If the parent's map has a first view of a hyperobject, and every other view of it is
    -- worth some updates when it is reduced into another, then every schedule that returns all children
    -- of the stolen frame leaves a view of it in the parent, and what that view stands for is what the
    -- updates make of the first one, in serial order.
    pub run_updates :
        (f g : Family (Values reduce base)) (ks : List ℕ)
        → IsLoaded (pointwise reduce base) (pointwise_assoc reduce base assoc) f.children
        → run (pointwise reduce base) ks f ≡ some g
        → g.children ≡ []
        → (k : ℕ) (first : V) (logs : List (List X × List X))
        → value_at reduce base k f.children_map ≡ some first
        → AllWorth k f.children logs
        → (v : V) × (value_at reduce base k g.children_map ≡ some v)
          × (means v ≡ after_all (in_order logs) (means first))
    run_updates f g ks loaded ran done k first logs start worth =
        last (serial_at reduce base k f.children) (value_at reduce base k g.children_map) (base k)
          first (in_order logs) (serial-IsWorth? k f.children logs worth)
          (run_values reduce base assoc f g ks loaded ran done k
            ∙ ap (λ o. merge (reduce (base k)) o (serial_at reduce base k f.children)) start)
