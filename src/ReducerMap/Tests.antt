-- ===== src/ReducerMap/Tests.antt =====
-- Small reducer maps: one element, two maps merged, a hyperobject that comes and goes.
use cilk_l.Prelude.{
  ℕ, ◌+◌, ◌≤◌, ◌≡◌, ◌≢◌, refl, inl, inr, Bool, true, false, none, some, List, [], ◌∷◌, arith,
  update, ok, abort,
}
use cilk_l.ReducerMap.{Elem, null_elem, ReducerMap, Place, hashfun, rehash_and_insert}
use cilk_l.ReducerMap.Hash.{hashfun-lt}
use cilk_l.ReducerMap.Buckets.{AllNull, IsEnded, contents, IsBucket?, used}
use cilk_l.ReducerMap.Table.{entry, occurs, AllAt, gather, element, IsMap}
use cilk_l.ReducerMap.Insert.{update-all, Inserted}
use cilk_l.ReducerMap.Rehash.{rehash_and_insert-Inserted}
use cilk_l.ReducerMap.Merge.{merge_reducer_maps}
use cilk_l.ReducerMap.Merge.Loop.{Owned}
use cilk_l.ReducerMap.Merge.Maps.{Joined, merge_reducer_maps_lem}
use cilk_l.ReducerMap.Hyper.{
  Hyperobject, get_hyperobject_key, hyper_create, hyper_lookup, hyper_destroy,
}
use cilk_l.ReducerMap.Hyper.Lookup.{IsReady, hyper_lookup_lem}
use cilk_l.ReducerMap.Hyper.Removal.{Unregistered}
use cilk_l.ReducerMap.Hyper.Destroy.{hyper_destroy_lem, hyper_destroy-hyper_create}

-- A map of one bucket with one element.
abbrev single : Bool → Elem → ReducerMap
single leftmost e = record {
  nelem = 1;
  nbuckets = 1;
  buckets = update (λ i. none) 0 (some (record { nmax = 1; el = e ∷ null_elem ∷ [] }));
  merging = false;
  is_leftmost = leftmost;
}

used-single : (e : Elem) → e.key ≢ 0 → used (e ∷ null_elem ∷ []) ≡ e ∷ []
unfolding used
used-single e nz = ground arith

single-IsMap : (leftmost : Bool) (e : Elem) → e.key ≢ 0 → e.view ≢ 0 → IsMap (single leftmost e)
unfolding IsEnded AllNull AllAt occurs gather
single-IsMap leftmost e key view =
    let us = used-single e key in
    record {
      log = 0;
      power = omega arith;
      sound =
          update-all (λ i. IsBucket?) (λ i. none) 0
            (some (record { nmax = 1; el = e ∷ null_elem ∷ [] }))
            (record { sized = refl; ended = inr (key, inl (refl, omega arith)) })
            (λ i. omega arith);
      placed =
          update-all (λ i c. AllAt 1 i (contents c)) (λ i. none) 0
            (some (record { nmax = 1; el = e ∷ null_elem ∷ [] }))
            (rw us (key, view, omega (arith, hashfun-lt 1 e.key (omega arith)), omega arith))
            (λ i. omega arith);
      once = λ i k.
          update-all (λ i c. occurs k (contents c) ≤ 1) (λ i. none) 0
            (some (record { nmax = 1; el = e ∷ null_elem ∷ [] })) (rw us (ground arith))
            (λ i. omega arith) i;
      counted = rw us refl;
    }

element-single :
    (leftmost : Bool) (e : Elem) (k : ℕ)
    → e.key ≢ 0
    → element (single leftmost e) k ≡ entry k (e ∷ [])
unfolding element
element-single leftmost e k key =
    let home : hashfun 1 k ≡ 0 = omega (arith, hashfun-lt 1 k (omega arith)) in
    rw (home, used-single e key) refl

-- Two maps with one element of the hyperobject at 8 each, whose views are 100 and 200.
abbrev at_8 : ℕ → Elem
at_8 view = record { key = 8; hb = 8; view = view }

-- A view of that hyperobject in a map of one element.
single-entry :
    (leftmost : Bool) (e : Elem) (k : ℕ) (a : Elem)
    → e.key ≢ 0
    → element (single leftmost e) k ≡ some a
    → (a ≡ e) × (e.key ≡ k)
unfolding entry
single-entry leftmost e k a key is = ground (arith, element-single leftmost e k key)

abbrev sum : ℕ → ℕ → ℕ → ℕ
sum hb a b = a + b

single-Owned : (leftmost : Bool) (view : ℕ) → Owned (λ v. 8) (single leftmost (at_8 view))
single-Owned leftmost view k a is = (single-entry leftmost (at_8 view) k a (omega arith) is).1

rehash_and_insert-Inserted_example :
    (h' : ReducerMap) × (p : Place) × (rehash_and_insert
        (record { key = 16; hb = 16; view = 300 })
        (single true (at_8 100))
      ≡ ok (h', p))
    × Inserted (record { key = 16; hb = 16; view = 300 }) (single true (at_8 100)) h' p
    × (1 ≤ 1 → h'.nelem ≤ h'.nbuckets)
unfolding entry
rehash_and_insert-Inserted_example =
    rehash_and_insert-Inserted (record { key = 16; hb = 16; view = 300 }) (single true (at_8 100))
      (single-IsMap true (at_8 100) (omega arith) (omega arith)) (omega arith) (omega arith)
      (element-single true (at_8 100) 16 (omega arith))

merge_reducer_maps_lem_example :
    (h : ReducerMap) × (mem' : ℕ → ℕ) × (gone : List ℕ) × (merge_reducer_maps sum
        (some (single true (at_8 8)))
        (some (single false (at_8 200)))
        (λ a. a)
      ≡ ok (some h, mem', gone))
    × Joined sum (λ v. 8) (single true (at_8 8)) (single false (at_8 200)) (λ a. a) h mem' gone
merge_reducer_maps_lem_example =
    merge_reducer_maps_lem sum (λ v. 8) (single true (at_8 8)) (single false (at_8 200)) (λ a. a)
      (single-IsMap true (at_8 8) (omega arith) (omega arith))
      (single-IsMap false (at_8 200) (omega arith) (omega arith)) refl (single-Owned true 8)
      (single-Owned false 200)
      (λ k b is top. (single-entry false (at_8 200) k b (omega arith) is).1)
      (λ k a b ea eb. ground (
        arith,
        single-entry true (at_8 8) k a (omega arith) ea,
        single-entry false (at_8 200) k b (omega arith) eb,
      ))

single-hb : (view k : ℕ) (a : Elem) → element (single false (at_8 view)) k ≡ some a → a.hb ≡ k
single-hb view k a is = ground (arith, single-entry false (at_8 view) k a (omega arith) is)

-- The hyperobject at 8, whose leftmost view is inside it.
abbrev object : Hyperobject
object = record { address = 8; view_offset = 0 }

key-object : get_hyperobject_key object ≡ 8
unfolding get_hyperobject_key
key-object = refl

hyper_lookup_lem_example :
    (h : ReducerMap) × ((hyper_lookup 500 object none ≡ ok (some h, 500))
      × IsReady (some h)
      × ((other : ℕ) → hyper_lookup other object (some h) ≡ ok (some h, 500))
      × ((j : ℕ) → j ≢ get_hyperobject_key object → element h j ≡ none))
hyper_lookup_lem_example =
    hyper_lookup_lem object (omega (arith, key-object)) 500 none (omega arith) (omega arith)

hyper_destroy_lem_example :
    (element (single true (at_8 8)) (get_hyperobject_key object) ≡ none
      → hyper_destroy object (some (single true (at_8 8))) ≡ abort)
    × ((e : Elem)
        → element (single true (at_8 8)) (get_hyperobject_key object) ≡ some e
        → e.view ≢ get_hyperobject_key object
        → hyper_destroy object (some (single true (at_8 8))) ≡ abort)
    × ((e : Elem)
        → element (single true (at_8 8)) (get_hyperobject_key object) ≡ some e
        → e.view ≡ get_hyperobject_key object
        → (h' : ReducerMap) × (hyper_destroy object (some (single true (at_8 8))) ≡ ok (some h'))
          × Unregistered (get_hyperobject_key object) (single true (at_8 8)) h')
hyper_destroy_lem_example =
    hyper_destroy_lem object (single true (at_8 8))
      (single-IsMap true (at_8 8) (omega arith) (omega arith), refl)

hyper_destroy-hyper_create_example :
    (h : ReducerMap) × (h' : ReducerMap) × (hyper_create object none ≡ ok (some h))
    × ((fresh : ℕ) → hyper_lookup fresh object (some h) ≡ ok (some h, get_hyperobject_key object))
    × (hyper_destroy object (some h) ≡ ok (some h'))
    × IsReady (some h')
    × ((k : ℕ) → element h' k ≡ none)
hyper_destroy-hyper_create_example =
    hyper_destroy-hyper_create object none (omega (arith, key-object)) (omega arith) refl
