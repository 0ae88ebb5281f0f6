-- ===== src/Reduction.antt =====
-- The reducer protocol of cilk-l/runtime/scheduler.c: the fast and the slow path of
-- `execute_reductions_for_spawn_return` when children return from spawns, and the slow path of
-- `execute_reductions_for_sync` when their parent stalls at a sync. The fast path of a sync only skips
-- the slow one where there is no map.
-- Merging two reducer maps is the work of reducer_impl.cpp; here it is an operation `op`, a section's
-- parameter, and a null map is `none`. What the theorems need of it, that it is associative, is what
-- the library asks of every reducer.
pub mod Order
pub mod Schedule
pub mod Sync
mod Tests
use cilk_l.Prelude.{
  ℕ, zero, suc, ◌+◌, ◌*◌, Bool, true, false, not, Option, none, some, List, [], ◌∷◌, ltb, ◌==◌,
  if◌then◌else◌,
}

-- What a returning child sees while it holds its parent's lock: `*left_map_ptr`, its worker's
-- `reducer_map`, and its own `right_reducer_map`.
pub record Slots (M : Type 0) : Type 0 where
  pub left : Option M
  pub middle : Option M
  pub right : Option M

abbrev pub slots : {M : Type 0} → Option M → Option M → Option M → Slots M
slots l m r = record { left = l; middle = m; right = r }

abbrev pub bit : {M : Type 0} → Option M → ℕ
bit none = 0
bit (some m) = 1

-- `case_value` of `fast_path_reductions_for_spawn_return`.
abbrev pub case_value : {M : Type 0} → Slots M → ℕ
case_value s = bit s.left + 2 * bit s.middle + 4 * bit s.right

-- The result is true if no reduction is left to do: the null pointer of the code.
unfoldable pub fast_path_reductions_for_spawn_return : {M : Type 0} → Slots M → Slots M × Bool
fast_path_reductions_for_spawn_return s =
    if ltb (case_value s) 2
    then (s, true)
    else (if case_value s == 2
        then (slots s.middle none s.right, true)
        else (if case_value s == 4 then (slots s.right s.middle none, true) else (s, false)))

-- `Slide middle map left if possible.`
abbrev pub slide_left : {M : Type 0} → Slots M → Slots M
slide_left {M} s = elim s.left [ none ↦ slots s.middle none s.right | some l ↦ s ]

-- `Slide right map to middle if possible.`
abbrev pub slide_middle : {M : Type 0} → Slots M → Slots M
slide_middle {M} s = elim s.middle [ none ↦ slots s.left s.right none | some m ↦ s ]

-- A child of a stolen frame: the map of the worker that returns from it, its `right_reducer_map`, and
-- whether it is inside the slow path.
pub record Child (M : Type 0) : Type 0 where
  pub map : Option M
  pub right : Option M
  pub merging : Bool

-- The parent's `children_reducer_map`, and the children from left to right.
pub record Family (M : Type 0) : Type 0 where
  pub children_map : Option M
  pub children : List (Child M)

module _ {M : Type 0} (op : M → M → M) where
  -- `repeated_merge_reducer_maps`
  unfoldable pub merge : Option M → Option M → Option M
  merge none b = b
  merge (some a) none = some a
  merge (some a) (some b) = some (op a b)

  -- One round of the loop of `slow_path_reductions_for_spawn_return`, from one acquisition of the
  -- parent's lock to its release. Where the round does not end the loop it takes all three maps, and
  -- the merged map is in the worker when the lock is taken again.
  pub slow_path_round : Slots M → Slots M × Bool
  slow_path_round s =
      let t = slide_middle (slide_left s) in
      elim t.middle [
        | none ↦ (t, true)
        | some m ↦ (slots none (merge (merge t.left t.middle) t.right) none, false)
      ]

  -- All that a child does under one acquisition of the lock: at first the fast path, and the first
  -- round where that is not enough; later one more round.
  pub locked_section : Bool → Slots M → Slots M × Bool
  unfolding slow_path_round
  locked_section merging s =
      if merging
      then slow_path_round s
      else (let (s', finished) = fast_path_reductions_for_spawn_return s in
          if finished then (s', true) else slow_path_round s')

  -- The left slot of a child is its left sibling's `right_reducer_map`, or the parent's
  -- `children_reducer_map` if it has none. A child that is finished is unlinked.
  abbrev acted : Slots M × Bool → List (Child M) → Option (Option M × List (Child M))
  acted (s, finished) cs = some (
    s.left,
    (if finished then cs else (record { map = s.middle; right = s.right; merging = true } ∷ cs)),
  )

  -- Child `k` of the list acts; the argument and the result have the map to the left of the list.
  unfoldable pub act : ℕ → Option M → List (Child M) → Option (Option M × List (Child M))
  unfolding locked_section
  act k left [] = none
  act zero left (c ∷ cs) = acted (locked_section c.merging (slots left c.map c.right)) cs
  act (suc k) left (c ∷ cs) = elim (act k c.right cs) [
    | none ↦ none
    | some (r, cs') ↦ some (left, record c { right = r } ∷ cs')
  ]

  unfoldable pub step : ℕ → Family M → Option (Family M)
  step k f = elim (act k f.children_map f.children) [
    | none ↦ none
    | some (l, cs) ↦ some (record { children_map = l; children = cs })
  ]

  -- A schedule says which child acts next.
  unfoldable pub run : List ℕ → Family M → Option (Family M)
  run [] f = some f
  run (k ∷ ks) f = elim (step k f) [ none ↦ none | some g ↦ run ks g ]

  -- One round of the loop of `slow_path_reductions_for_sync`, under the lock: the map to the left, and
  -- `middle_map` as it is when the lock is taken again. The result is true if the loop has ended.
  pub sync_round : Option M → Option M → Option M × Option M × Bool
  sync_round left middle =
      let left_map : Option M = elim left [ none ↦ middle | some l ↦ some l ] in
      let middle_map : Option M = elim left [ none ↦ none | some l ↦ middle ] in
      elim middle_map [
        | none ↦ (left_map, none, true)
        | some m ↦ (none, merge left_map (some m), false)
      ]

  -- The map to the left is the rightmost child's `right_reducer_map`, or the `children_reducer_map` of a
  -- parent without children; the list has the children to come, and `left` is to the left of it.
  pub sync_act : Option M → List (Child M) → Option M → Option M × List (Child M) × Option M × Bool
  unfolding sync_round
  sync_act left [] own = let (l, m, finished) = sync_round left own in (l, [], m, finished)
  sync_act left (c ∷ cs) own =
      let (r, cs', m, finished) = sync_act c.right cs own in
      (left, record c { right = r } ∷ cs', m, finished)

-- A parent that stalls at a sync while children still return: the map of its worker, and whether it is
-- still in the loop.
pub record Stalled (M : Type 0) : Type 0 where
  pub family : Family M
  pub own : Option M
  pub stalled : Bool

pub data Actor : Type 0 where
  child : ℕ → Actor
  parent : Actor

module _ {M : Type 0} (op : M → M → M) where
  pub sync_step : Actor → Stalled M → Option (Stalled M)
  sync_step (child k) s = elim (step op k s.family) [
    | none ↦ none
    | some f ↦ some (record s { family = f })
  ]
  sync_step parent s =
      let (l, cs, m, finished) = sync_act op s.family.children_map s.family.children s.own in
      if s.stalled
      then some (record {
        family = record { children_map = l; children = cs };
        own = m;
        stalled = not finished;
      })
      else none

  pub sync_run : List Actor → Stalled M → Option (Stalled M)
  sync_run [] s = some s
  sync_run (a ∷ rest) s = elim (sync_step a s) [ none ↦ none | some t ↦ sync_run rest t ]
