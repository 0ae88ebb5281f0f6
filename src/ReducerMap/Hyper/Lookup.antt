-- ===== src/ReducerMap/Hyper/Lookup.antt =====
-- `__cilkrts_hyper_lookup` gives a strand one view of a hyperobject.
use cilk_l.Prelude.{
  ℕ, ◌≤◌, ◌≡◌, ◌≢◌, refl, sym, ap, ◌∙◌, inl, inr, Bool, false, Option, none, some, arith,
  if◌then◌else◌, Option-cases, some-eq, ok,
}
use cilk_l.ReducerMap.{
  Elem, ReducerMap, Place, lookup, rehash_and_insert, make_reducer_map, make_buckets,
}
use cilk_l.ReducerMap.Hash.{is_power_of_2_lem}
use cilk_l.ReducerMap.Table.{element, IsMap, lookup-cases}
use cilk_l.ReducerMap.Insert.{Inserted}
use cilk_l.ReducerMap.Rehash.{rehash_and_insert-Inserted, empty-IsMap, element-none}
use cilk_l.ReducerMap.Hyper.{Hyperobject, get_hyperobject_key, worker_map, hyper_lookup}

-- A worker whose map, if it has one, is sound and not being merged.
abbrev pub IsReady : Option ReducerMap → Type 0
IsReady none = 0 ≤ 0
IsReady (some h) = IsMap h × (h.merging ≡ false)

-- The element of a worker's map, and whether the map is the leftmost.
abbrev pub view_of : Option ReducerMap → ℕ → Option Elem
view_of none key = none
view_of (some h) key = element h key

abbrev pub leftmost : Option ReducerMap → Bool
leftmost none = false
leftmost (some h) = h.is_leftmost

pub worker_map_lem :
    (worker : Option ReducerMap)
    → IsReady worker
    → (h : ReducerMap) × (worker_map worker ≡ ok h)
      × IsMap h
      × (h.merging ≡ false)
      × (h.is_leftmost ≡ leftmost worker)
      × ((k : ℕ) → element h k ≡ view_of worker k)
unfolding worker_map make_reducer_map make_buckets
worker_map_lem none ready =
    let blank : ReducerMap = record {
      nelem = 0;
      nbuckets = 0;
      buckets = λ i. none;
      merging = false;
      is_leftmost = false;
    } in
    (
      record blank { nbuckets = 1; buckets = λ i. none; nelem = 0 },
      rw (is_power_of_2_lem 0 1 (omega arith)) refl,
      empty-IsMap blank 0 1 (omega arith),
      refl,
      refl,
      element-none 1 blank,
    )
worker_map_lem (some h) (m, idle) = (h, refl, m, idle, refl, λ k. refl)

-- The view that a strand is given.
abbrev pub strand_view : ℕ → ℕ → Bool → Option Elem → ℕ
strand_view fresh key top (some e) = e.view
strand_view fresh key top none = if top then key else fresh

module _ (hb : Hyperobject) (key : get_hyperobject_key hb ≢ 0) where
  abbrev k : ℕ
  k = get_hyperobject_key hb

  made : ℕ → ReducerMap → Elem
  made fresh h = record { key = k; hb = hb.address; view = (if h.is_leftmost then k else fresh) }

  lookup-hit :
      (fresh : ℕ) (h : ReducerMap) (p : Place)
      → h.merging ≡ false
      → lookup k h ≡ ok (some p)
      → hyper_lookup fresh hb (some h) ≡ ok (some h, p.elem.view)
  unfolding hyper_lookup worker_map
  lookup-hit fresh h p idle found = simp (idle, found)

  lookup-miss :
      (fresh : ℕ) (h h' : ReducerMap) (p : Place)
      → h.merging ≡ false
      → lookup k h ≡ ok none
      → rehash_and_insert (made fresh h) h ≡ ok (h', p)
      → hyper_lookup fresh hb (some h) ≡ ok (some h', p.elem.view)
  unfolding hyper_lookup worker_map made
  lookup-miss fresh h h' p idle missed ran = simp (idle, missed, ran)

  -- A lookup that finds the view changes nothing.
  pub lookup-found :
      (fresh : ℕ) (h : ReducerMap) (e : Elem)
      → IsReady (some h)
      → element h k ≡ some e
      → hyper_lookup fresh hb (some h) ≡ ok (some h, e.view)
  lookup-found fresh h e (m, idle) is = elim (lookup-cases h k m) [
    | inl (missed, nothing) ↦ absurd (cc)
    | inr (p, found, shown) ↦
        let same : p.elem ≡ e = some-eq (sym shown ∙ is) in
        lookup-hit fresh h p idle found ∙ ap (λ (a : Elem). ok (some h, a.view)) same
  ]

  -- A lookup in the worker's map, if it has one.
  lookup-worker :
      (fresh : ℕ) (worker : Option ReducerMap) (h : ReducerMap)
      → worker_map worker ≡ ok h
      → hyper_lookup fresh hb worker ≡ hyper_lookup fresh hb (some h)
  unfolding hyper_lookup worker_map
  lookup-worker fresh none h got = rw got refl
  lookup-worker fresh (some g) h got = cc

  -- A lookup that makes the view.
  lookup-made :
      (fresh : ℕ) (h : ReducerMap)
      → fresh ≢ 0
      → IsReady (some h)
      → element h k ≡ none
      → (h' : ReducerMap) × (p : Place) × (hyper_lookup fresh hb (some h)
          ≡ ok (some h', (made fresh h).view))
        × Inserted (made fresh h) h h' p
  unfolding made
  lookup-made fresh h nz (m, idle) nothing = elim (lookup-cases h k m) [
    | inr (p, found, shown) ↦ absurd (cc)
    | inl (missed, _) ↦
        let rep : (if h.is_leftmost then k else fresh) ≢ 0 = ground arith in
        let (h', p, ran, ins, _) = rehash_and_insert-Inserted (made fresh h) h m key rep nothing in
        (
          h',
          p,
          lookup-miss fresh h h' p idle missed ran
              ∙ ap (λ (a : Elem). ok (some h', a.view)) ins.shown,
          ins,
        )
  ]

  -- Looking up a hyperobject whose key is not null, with memory for a view, succeeds on a worker that
  -- has no map, or a sound one that is not merging. The view is the one that the worker's map has;
  -- else the leftmost view in the leftmost map, and a new identity view in another. From then on every
  -- lookup, whatever view it would make, gives the same view and changes nothing, and the map is
  -- sound. The views of other hyperobjects stay.
  pub hyper_lookup_lem :
      (fresh : ℕ) (worker : Option ReducerMap)
      → fresh ≢ 0
      → IsReady worker
      → (h : ReducerMap) × (let v = strand_view fresh k (leftmost worker) (view_of worker k) in
          (hyper_lookup fresh hb worker ≡ ok (some h, v))
          × IsReady (some h)
          × ((other : ℕ) → hyper_lookup other hb (some h) ≡ ok (some h, v))
          × ((j : ℕ) → j ≢ k → element h j ≡ view_of worker j))
  hyper_lookup_lem fresh worker nz ready =
      let (h, got, m, idle, top, same) = worker_map_lem worker ready in
      let first = lookup-worker fresh worker h got in
      elim (Option-cases (element h k)) [
        | inr (e, is) ↦
            let v = ap (strand_view fresh k (leftmost worker)) (sym (same k) ∙ is) in
            let answer = λ (other : ℕ).
              lookup-found other h e (m, idle) is ∙ ap (λ x. ok (some h, x)) (sym v) in
            (h, (first ∙ answer fresh, (m, idle), answer, λ j ne. same j))
        | inl nothing ↦
            let (h', p, ran, ins) = lookup-made fresh h nz (m, idle) nothing in
            let v = ap (strand_view fresh k (leftmost worker)) (sym (same k) ∙ nothing) in
            let rep : (if leftmost worker then k else fresh) ≡ (made fresh h).view =
              unfold made in ap (λ b. if b then k else fresh) (sym top) in
            let ready' : IsReady (some h') = (ins.sound, ins.merging ∙ idle) in
            let is : element h' k ≡ some (made fresh h) =
              unfold made in ground (arith, ins.holds k) in
            (
              h',
              (
                first ∙ ran ∙ ap (λ x. ok (some h', x)) (sym (v ∙ rep)),
                ready',
                (λ other.
                    lookup-found other h' (made fresh h) ready' is
                    ∙ ap (λ x. ok (some h', x)) (sym (v ∙ rep))),
                λ j ne. unfold made in ground (arith, ins.holds j, same j),
              ),
            )
      ]
