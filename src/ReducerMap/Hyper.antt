-- ===== src/ReducerMap/Hyper.antt =====
-- Hyperobjects and the map of the worker that uses them: `__cilkrts_hyper_create`,
-- `__cilkrts_hyper_lookup` and `__cilkrts_hyper_destroy` of cilk-l/runtime/reducer_impl.cpp, for a
-- thread that has a worker and with `force_reduce` off. The worker is its `reducer_map`; a null map is
-- `none`.
pub mod Lookup
pub mod Removal
pub mod Destroy
use cilk_l.Prelude.{
  ℕ, zero, suc, ◌+◌, ◌-◌, ◌%◌, ◌^◌, Bool, true, false, not, Option, none, some, List, [], ◌∷◌,
  length, ltb, ◌==◌, if◌then◌else◌, update, Outcome, ok, abort, fault, ◌>>=◌, ◌>>◌, is_some, check,
  in_bounds,
}
use cilk_l.ReducerMap.{Elem, Bucket, ReducerMap, Place, lookup, rehash_and_insert, make_reducer_map}

-- `__cilkrts_hyperobject_base`: its address, and the offset of the leftmost view, in two's complement.
pub record Hyperobject : Type 0 where
  pub address : ℕ
  pub view_offset : ℕ

unfoldable pub get_hyperobject_key : Hyperobject → ℕ
get_hyperobject_key hb = (hb.address + hb.view_offset) % 2 ^ 64

-- The worker's map, a new one if it has none.
pub worker_map : Option ReducerMap → Outcome ReducerMap
worker_map none = make_reducer_map
worker_map (some h) = ok h

-- The leftmost view is registered under its own address.
pub hyper_create : Hyperobject → Option ReducerMap → Outcome (Option ReducerMap)
hyper_create hb worker = do
  let key = get_hyperobject_key hb
  h ← worker_map worker
  found ← lookup key h
  check (not (is_some found))
  check (not h.merging)
  (h', p) ← rehash_and_insert (record { key = key; hb = hb.address; view = key }) h
  ok (some h')

-- The view of the strand; `fresh` is the identity view that `allocate_fn` and `identity_fn` would make.
pub hyper_lookup : ℕ → Hyperobject → Option ReducerMap → Outcome (Option ReducerMap × ℕ)
hyper_lookup fresh hb worker = do
  let key = get_hyperobject_key hb
  h ← worker_map worker
  check (not h.merging)
  found ← lookup key h
  let rep = if h.is_leftmost then key else fresh
  elim found [
    | some p ↦ ok (some h, p.elem.view)
    | none ↦ rehash_and_insert (record { key = key; hb = hb.address; view = rep }) h >>= λ (h', p).
        ok (some h', p.elem.view)
  ]

-- `do { el[0] = el[1]; ++el; } while (el->key)` on the array from `el` on.
pub move_down : List Elem → Outcome (List Elem)
move_down [] = fault
move_down (x ∷ []) = fault
move_down (x ∷ y ∷ es) =
    let rest = move_down (y ∷ es) >>= λ es'. ok (y ∷ es') in
    if y.key == 0 then ok (y ∷ y ∷ es) else rest

-- The same for element `i` of a bucket.
pub remove_at : ℕ → List Elem → Outcome (List Elem)
remove_at i [] = fault
remove_at zero (e ∷ es) = move_down (e ∷ es)
remove_at (suc i) (e ∷ es) = remove_at i es >>= λ es'. ok (e ∷ es')

-- Only the leftmost view, which is not the runtime's to destroy, is unregistered.
pub hyper_destroy : Hyperobject → Option ReducerMap → Outcome (Option ReducerMap)
hyper_destroy hb none = abort
hyper_destroy hb (some h) = do
  check (not h.merging)
  let key = get_hyperobject_key hb
  found ← lookup key h
  elim found [
    | none ↦ abort
    | some p ↦ check (p.elem.key == p.elem.view) >> (elim (h.buckets p.bucket) [
      | none ↦ fault
      | some b ↦ remove_at p.index b.el >>= λ es. ok (
          some (record h {
            buckets = update h.buckets p.bucket (some (record b { el = es }));
            nelem = h.nelem - 1;
          }))
    ])
  ]
