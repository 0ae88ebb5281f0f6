-- ===== src/ReducerMap/Merge.antt =====
-- Merging two reducer maps: `cilkred_map::merge`, `merge_reducer_maps` and
-- `__cilkrts_destroy_reducer_map` of cilk-l/runtime/reducer_impl.cpp. The memory of the views is a
-- function from addresses to values. A hyperobject's `reduce_fn` is a parameter: it writes what it
-- makes of the two values into the left view. The map that is destroyed is given up by the caller, and
-- what is left of it is the list of the views that are destroyed.
pub mod Views
pub mod Round
pub mod Loop
pub mod Arrays
pub mod Dropped
pub mod Whole
pub mod Maps
use cilk_l.Prelude.{
  ℕ, zero, suc, ◌+◌, ◌<◌, Bool, true, false, not, ◌&&◌, ◌||◌, Option, none, some, List, [], ◌∷◌,
  ◌++◌, ltb, ◌==◌, if◌then◌else◌, update, Outcome, ok, abort, fault, ◌>>=◌, ◌>>◌, check, in_bounds,
}
use cilk_l.ReducerMap.{Elem, Bucket, ReducerMap, Place, write, lookup, rehash_and_insert}

-- `enum merge_kind`
pub data MergeKind : Type 0 where
  merge_unordered merge_into_left merge_into_right : MergeKind

-- `this_el->view = view`
pub put_view : Place → ℕ → ReducerMap → Outcome ReducerMap
put_view p view h = elim (h.buckets p.bucket) [
  | none ↦ fault
  | some b ↦ write b p.index (record p.elem { view = view }) >>= λ b'.
      ok (record h { buckets = update h.buckets p.bucket (some b') })
]

-- `elem::destroy`: the views that it destroys.
abbrev pub destroy : Elem → List ℕ
destroy e = if e.key == e.view then [] else e.view ∷ []

-- The loops of `__cilkrts_destroy_reducer_map` over the elements of a bucket, and over `n` buckets from
-- `i` on.
pub destroy_elems : List Elem → Outcome (List ℕ)
destroy_elems [] = fault
destroy_elems (e ∷ es) =
    let rest = destroy_elems es >>= λ vs. ok ((if e.view == 0 then [] else destroy e) ++ vs) in
    if e.key == 0 then ok [] else rest

pub destroy_buckets : (ℕ → Option Bucket) → ℕ → ℕ → Outcome (List ℕ)
destroy_buckets buckets i zero = ok []
destroy_buckets buckets i (suc n) =
    let rest = destroy_buckets buckets (suc i) n in
    elim (buckets i) [
      | none ↦ rest
      | some b ↦ destroy_elems b.el >>= λ us. rest >>= λ vs. ok (us ++ vs)
    ]

abbrev pub destroy_reducer_map : ReducerMap → Outcome (List ℕ)
destroy_reducer_map h = destroy_buckets h.buckets 0 h.nbuckets

module _ {V : Type 0} (reduce : ℕ → V → V → V) where
  -- The map that is merged into, the memory, and what is left of what was merged.
  abbrev pub Merged : Type 0 → Type 0
  Merged A = ReducerMap × (ℕ → V) × A

  -- The element that the other map's element `o` is merged with, if there is one, or is made for it.
  pub this_element : Bool → Elem → ReducerMap → Outcome (ReducerMap × Option Place)
  this_element merge_to_leftmost o h = do
    found ← lookup o.key h
    let leftmost = record o { view = o.key }
    elim found [
      | some p ↦ ok (h, some p)
      | none ↦
          if merge_to_leftmost && not (o.key == o.view)
          then (rehash_and_insert leftmost h >>= λ (h', p). ok (h', some p))
          else ok (h, none)
    ]

  -- The `switch` on the kind: `A OP B`, or `B OP A` with the views swapped.
  pub reduce_element : MergeKind → Elem → Place → ReducerMap → (ℕ → V) → Outcome (Merged Elem)
  reduce_element merge_unordered o p h mem = abort
  reduce_element merge_into_left o p h mem =
      let left = p.elem.view in ok (h, update mem left (reduce o.hb (mem left) (mem o.view)), o)
  reduce_element merge_into_right o p h mem =
      let right = p.elem.view in
      put_view p o.view h >>= λ h'.
      ok (h', update mem o.view (reduce o.hb (mem o.view) (mem right)), record o { view = right })

  -- One round of the loop over the elements of the other map.
  pub merge_element : MergeKind → Bool → Elem → ReducerMap → (ℕ → V) → Outcome (Merged Elem)
  merge_element kind merge_to_leftmost o h mem = do
    check (not (o.view == 0))
    (h', this_el) ← this_element merge_to_leftmost o h
    elim this_el [
      | some p ↦ reduce_element kind o p h' mem
      | none ↦ rehash_and_insert o h' >>= λ (h'', p). ok (h'', mem, record o { view = 0 })
    ]

  pub merge_elements :
      MergeKind → Bool → List Elem → ReducerMap → (ℕ → V) → Outcome (Merged (List Elem))
  merge_elements kind to_leftmost [] h mem = fault
  merge_elements kind to_leftmost (o ∷ os) h mem =
      let more = merge_element kind to_leftmost o h mem >>= λ (h', mem', o').
      merge_elements kind to_leftmost os h' mem' >>= λ (h'', mem'', os').
      ok (h'', mem'', o' ∷ os') in
      if o.key == 0 then ok (h, mem, o ∷ os) else more

  -- The loop over `n` buckets of the other map, from bucket `i` on.
  pub merge_buckets :
      MergeKind
      → Bool
      → ℕ
      → ℕ
      → (ℕ → Option Bucket)
      → ReducerMap
      → (ℕ → V)
      → Outcome (Merged (ℕ → Option Bucket))
  merge_buckets kind to_leftmost i zero buckets h mem = ok (h, mem, buckets)
  merge_buckets kind to_leftmost i (suc n) buckets h mem = elim (buckets i) [
    | none ↦ merge_buckets kind to_leftmost (suc i) n buckets h mem
    | some b ↦ merge_elements kind to_leftmost b.el h mem >>= λ (h', mem', es).
        merge_buckets kind to_leftmost (suc i) n (update buckets i (some (record b { el = es }))) h'
          mem'
  ]

  -- The result has the views that are destroyed with the other map.
  pub merge_map : MergeKind → ReducerMap → ReducerMap → (ℕ → V) → Outcome (Merged (List ℕ))
  merge_map kind this other mem = do
    check (not other.is_leftmost)
    (h, mem', buckets') ←
        merge_buckets kind this.is_leftmost 0 other.nbuckets other.buckets
          (record this { merging = true }) mem
    let h' = record h { is_leftmost = h.is_leftmost || other.is_leftmost; merging = false }
    destroyed ← destroy_reducer_map (record other { buckets = buckets' })
    ok (h', mem', destroyed)

  -- A null map is `none`.
  pub merge_reducer_maps :
      Option ReducerMap
      → Option ReducerMap
      → (ℕ → V)
      → Outcome (Option ReducerMap × (ℕ → V) × List ℕ)
  merge_reducer_maps none right mem = ok (right, mem, [])
  merge_reducer_maps (some l) none mem = ok (some l, mem, [])
  merge_reducer_maps (some l) (some r) mem =
      (if l.is_leftmost || ltb r.nelem l.nelem
        then merge_map merge_into_left l r mem
        else merge_map merge_into_right r l mem)
      >>= λ (h, mem', destroyed). ok (some h, mem', destroyed)
