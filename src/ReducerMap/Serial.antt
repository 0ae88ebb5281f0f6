-- ===== src/ReducerMap/Serial.antt =====
-- The maps of reducer_impl.cpp under the reducer protocol of scheduler.c: what a map means is a value
-- for each hyperobject, and merging maps is merging these values, key by key.
use cilk_l.Prelude.{
  ℕ, ◌≡◌, refl, sym, ap, ◌∙◌, Bool, false, Option, none, some, List, [], ◌∷◌, fun_ext, ok,
}
use cilk_l.Reduction.{Child, Family, merge, run}
use cilk_l.Reduction.Order.{serial, merge_assoc, IsLoaded}
use cilk_l.Reduction.Schedule.{reductions_deterministic}
use cilk_l.ReducerMap.{Elem, ReducerMap}
use cilk_l.ReducerMap.Table.{element, IsMap}
use cilk_l.ReducerMap.Merge.{merge_reducer_maps}
use cilk_l.ReducerMap.Merge.Loop.{Owned}
use cilk_l.ReducerMap.Merge.Maps.{held, joined, merge_reducer_maps_lem}

-- The value of an element, if there is one.
abbrev pub value_of : {V : Type 0} → (ℕ → V) → Option Elem → Option V
value_of mem none = none
value_of mem (some a) = some (mem a.view)

-- What a map means: for each key the value of its view, if it has one.
abbrev pub values : {V : Type 0} → (ℕ → V) → ReducerMap → ℕ → Option V
values mem h k = value_of mem (element h k)

-- `base` is the hyperobject of a key; `reduce` its monoid's operation.
module _ {V : Type 0} (reduce : ℕ → V → V → V) (base : ℕ → ℕ) where
  abbrev pub Values : Type 0
  Values = ℕ → Option V

  -- Merging key by key.
  unfoldable pub pointwise : Values → Values → Values
  pointwise f g k = merge (reduce (base k)) (f k) (g k)

  -- The value of a key in a map that may be null.
  abbrev pub value_at : ℕ → Option Values → Option V
  value_at k none = none
  value_at k (some f) = f k

  -- The values of one hyperobject in the children's maps, merged in serial order.
  abbrev pub serial_at : ℕ → List (Child Values) → Option V
  serial_at k [] = none
  serial_at k (c ∷ cs) =
      merge (reduce (base k)) (value_at k c.map)
        (merge (reduce (base k)) (value_at k c.right) (serial_at k cs))

  value_at-merge :
      (k : ℕ) (a b : Option Values)
      → value_at k (merge pointwise a b) ≡ merge (reduce (base k)) (value_at k a) (value_at k b)
  unfolding merge pointwise
  value_at-merge k none b = refl
  value_at-merge k (some f) none = go (f k)
    where
      go : (a : Option V) → a ≡ merge (reduce (base k)) a none
      go none = refl
      go (some v) = refl
  value_at-merge k (some f) (some g) = refl

  value_at-serial :
      (k : ℕ) (cs : List (Child Values)) → value_at k (serial pointwise cs) ≡ serial_at k cs
  value_at-serial k [] = refl
  value_at-serial k (c ∷ cs) =
      value_at-merge k c.map (merge pointwise c.right (serial pointwise cs))
      ∙ ap (merge (reduce (base k)) (value_at k c.map)) (
          value_at-merge k c.right (serial pointwise cs)
          ∙ ap (merge (reduce (base k)) (value_at k c.right)) (value_at-serial k cs))

  pub pointwise_assoc :
      ((k : ℕ) (a b c : V) → reduce k (reduce k a b) c ≡ reduce k a (reduce k b c))
      → (f g h : Values) → pointwise (pointwise f g) h ≡ pointwise f (pointwise g h)
  unfolding pointwise
  pointwise_assoc assoc f g h =
      fun_ext (λ k. merge_assoc (reduce (base k)) (assoc (base k)) (f k) (g k) (h k))

  abbrev second : Option (ℕ × V) → Option V
  second none = none
  second (some (view, v)) = some v

  second-held : (mem : ℕ → V) (a : Option Elem) → second (held reduce mem a) ≡ value_of mem a
  second-held mem none = refl
  second-held mem (some a) = refl

  second-joined :
      (lm : Bool) (mem : ℕ → V) (k : ℕ) (a b : Option Elem)
      → lm ≡ false
      → ((x : Elem) → b ≡ some x → x.hb ≡ base k)
      → second (joined reduce lm mem k a b)
        ≡ merge (reduce (base k)) (value_of mem a) (value_of mem b)
  unfolding merge
  second-joined lm mem k none none plain hbs = refl
  second-joined lm mem k (some a) none plain hbs = refl
  second-joined lm mem k none (some b) plain hbs = rw plain refl
  second-joined lm mem k (some a) (some b) plain hbs =
      ap (λ f. some (reduce f (mem a.view) (mem b.view))) (hbs b refl)

  -- Take two sound maps of which neither is the leftmost. Each view belongs to its key, and the
  -- elements of a key are of the hyperobject that is its base. Then `merge_reducer_maps` succeeds, and
  -- the map that it keeps means the two maps' meanings merged key by key, the left one's values to the
  -- left, whichever of the maps it is.
  values-merge_reducer_maps :
      (owner : ℕ → ℕ) (l r : ReducerMap) (mem : ℕ → V)
      → IsMap l
      → IsMap r
      → l.is_leftmost ≡ false
      → r.is_leftmost ≡ false
      → Owned owner l
      → Owned owner r
      → ((k : ℕ) (a : Elem) → element l k ≡ some a → a.hb ≡ base k)
      → ((k : ℕ) (b : Elem) → element r k ≡ some b → b.hb ≡ base k)
      → (h : ReducerMap) × (mem' : ℕ → V) × (gone : List ℕ) × (merge_reducer_maps reduce
            (some l)
            (some r)
            mem
          ≡ ok (some h, mem', gone))
        × (values mem' h ≡ pointwise (values mem l) (values mem r))
  unfolding pointwise
  values-merge_reducer_maps owner l r mem ml mr plain_l plain_r own_l own_r hb_l hb_r =
      let (h, mem', gone, ran, j) =
        merge_reducer_maps_lem reduce owner l r mem ml mr plain_r own_l own_r
          (λ k b e top. absurd (cc)) (λ k a b ea eb. hb_l k a ea ∙ sym (hb_r k b eb)) in
      (
        h,
        mem',
        gone,
        ran,
        fun_ext (λ k.
            sym (second-held mem' (element h k))
            ∙ ap second (j.holds k)
            ∙ second-joined l.is_leftmost mem k (element l k) (element r k) plain_l (hb_r k)),
      )

  -- If every monoid is associative, the children of a stolen frame return in any order, with maps that
  -- have a value for each of their hyperobjects, and each child that is inside the slow path has a map in
  -- its worker: every schedule that returns them all leaves in the parent, for each hyperobject, the
  -- values of the strands that used it, reduced in serial order. What is true of the other
  -- hyperobjects, and how the maps met, does not matter.
  pub run_values :
      (assoc : (k : ℕ) (a b c : V) → reduce k (reduce k a b) c ≡ reduce k a (reduce k b c))
      → (f g : Family Values) (ks : List ℕ) → IsLoaded pointwise (pointwise_assoc assoc) f.children
      → run pointwise ks f ≡ some g
      → g.children ≡ []
      → (k : ℕ)
      → value_at k g.children_map
        ≡ merge (reduce (base k)) (value_at k f.children_map) (serial_at k f.children)
  run_values assoc f g ks loaded ran done k =
      let (_, _, serial_order) =
        reductions_deterministic pointwise (pointwise_assoc assoc) f loaded in
      ap (value_at k) (serial_order ks g ran done)
      ∙ value_at-merge k f.children_map (serial pointwise f.children)
      ∙ ap (merge (reduce (base k)) (value_at k f.children_map)) (value_at-serial k f.children)
