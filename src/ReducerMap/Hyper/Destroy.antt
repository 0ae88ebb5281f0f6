-- ===== src/ReducerMap/Hyper/Destroy.antt =====
-- `__cilkrts_hyper_create` and `__cilkrts_hyper_destroy`: registering a hyperobject and taking it out.
use cilk_l.Prelude.{
  ℕ, ◌-◌, ◌≡◌, ◌≢◌, refl, sym, ap, ◌∙◌, inl, inr, false, Option, none, some, List, arith, ==_iff,
  ne→false, Option-cases, some-eq, update, ok, abort,
}
use cilk_l.ReducerMap.{Elem, Bucket, ReducerMap, Place, lookup, hashfun, rehash_and_insert}
use cilk_l.ReducerMap.Buckets.{contents, used, IsBucket}
use cilk_l.ReducerMap.Table.{
  occurs, place_of, AllAt, home, element, IsMap, lookup-place, lookup-cases, element-key,
}
use cilk_l.ReducerMap.Rehash.{rehash_and_insert-Inserted}
use cilk_l.ReducerMap.Hyper.{
  Hyperobject, get_hyperobject_key, worker_map, hyper_create, hyper_lookup, hyper_destroy,
  remove_at,
}
use cilk_l.ReducerMap.Hyper.Lookup.{IsReady, view_of, worker_map_lem, lookup-found}
use cilk_l.ReducerMap.Hyper.Removal.{Unregistered, remove_at-Removed, without, without-Unregistered}

module _ (hb : Hyperobject) where
  destroy-run :
      (h : ReducerMap) (p : Place) (b : Bucket) (es : List Elem)
      → h.merging ≡ false
      → lookup (get_hyperobject_key hb) h ≡ ok (some p)
      → p.elem.key ≡ p.elem.view
      → h.buckets p.bucket ≡ some b
      → remove_at p.index b.el ≡ ok es
      → hyper_destroy hb (some h)
        ≡ ok (
            some (record h {
              buckets = update h.buckets p.bucket (some (record b { el = es }));
              nelem = h.nelem - 1;
            }))
  unfolding hyper_destroy
  destroy-run h p b es idle found top is ran =
      simp (idle, found, (==_iff p.elem.key p.elem.view).1 top, is, ran)

  destroy-found :
      (h : ReducerMap) (m : IsMap h) (key : ℕ) (p : Place) (b : Bucket)
      → key ≡ get_hyperobject_key hb
      → h.merging ≡ false
      → lookup key h ≡ ok (some p)
      → p.elem.key ≡ p.elem.view
      → h.buckets (hashfun h.nbuckets key) ≡ some b
      → place_of key (hashfun h.nbuckets key) 0 (home h key) ≡ some p
      → (h' : ReducerMap) × (hyper_destroy hb (some h) ≡ ok (some h')) × Unregistered key h h'
  destroy-found h m key p b is_key idle found top is at =
      let i = hashfun h.nbuckets key in
      let here : home h key ≡ used b.el = ap contents is in
      let wf : IsBucket b = rw is at (m.sound i) in
      let all : AllAt h.nbuckets i (used b.el) = rw is at (m.placed i) in
      let (j, index, bucket, (es, ran, r)) =
        remove_at-Removed h.nbuckets i key 0 b.el p wf.ended all
          (λ k. omega (arith, m.once i k, ap (occurs k) here))
          (ap (place_of key i 0) (sym here) ∙ at) in
      let ran' : remove_at p.index b.el ≡ ok es =
        ap (λ l. remove_at l b.el) (omega (arith, index)) ∙ ran in
      (
        without h m key (record b { el = es }),
        destroy-run h p b es idle (ap (λ k. lookup k h) (sym is_key) ∙ found) top
              (ap h.buckets bucket ∙ is) ran'
            ∙ ap
                (λ l. ok (
                  some (record h {
                    buckets = update h.buckets l (some (record b { el = es }));
                    nelem = h.nelem - 1;
                  })))
                bucket,
        without-Unregistered h m key b es is r,
      )

  -- Unregistering a hyperobject whose view is the leftmost one.
  destroy-Unregistered :
      (h : ReducerMap) (e : Elem)
      → IsReady (some h)
      → element h (get_hyperobject_key hb) ≡ some e
      → e.key ≡ e.view
      → (h' : ReducerMap) × (hyper_destroy hb (some h) ≡ ok (some h'))
        × Unregistered (get_hyperobject_key hb) h h'
  destroy-Unregistered h e (m, idle) is top =
      let key = get_hyperobject_key hb in
      let i = hashfun h.nbuckets key in
      elim (lookup-cases h key m) [
        | inl (missed, nothing) ↦ absurd (cc)
        | inr (p, found, shown) ↦
            let same : p.elem ≡ e = some-eq (sym shown ∙ is) in
            let top' : p.elem.key ≡ p.elem.view = ground arith in
            let at : place_of key i 0 (home h key) ≡ some p = cc (lookup-place h key m) in
            elim (Option-cases (h.buckets i)) [
              | inl null ↦
                  let nowhere : place_of key i 0 (home h key) ≡ none =
                    unfold place_of in ap (λ c. place_of key i 0 (contents c)) null in
                  absurd (cc)
              | inr (b, is_b) ↦ destroy-found h m key p b refl idle found top' is_b at
            ]
      ]

  destroy-missed :
      (h : ReducerMap)
      → h.merging ≡ false
      → lookup (get_hyperobject_key hb) h ≡ ok none
      → hyper_destroy hb (some h) ≡ abort
  unfolding hyper_destroy
  destroy-missed h idle missed = simp (idle, missed)

  destroy-other :
      (h : ReducerMap) (p : Place)
      → h.merging ≡ false
      → lookup (get_hyperobject_key hb) h ≡ ok (some p)
      → p.elem.key ≢ p.elem.view
      → hyper_destroy hb (some h) ≡ abort
  unfolding hyper_destroy
  destroy-other h p idle found other = simp (idle, found, ne→false p.elem.key p.elem.view other)

  registered : Elem
  registered = record {
    key = get_hyperobject_key hb;
    hb = hb.address;
    view = get_hyperobject_key hb;
  }

  create-run :
      (worker : Option ReducerMap) (h h' : ReducerMap) (p : Place)
      → worker_map worker ≡ ok h
      → lookup (get_hyperobject_key hb) h ≡ ok none
      → h.merging ≡ false
      → rehash_and_insert registered h ≡ ok (h', p)
      → hyper_create hb worker ≡ ok (some h')
  unfolding hyper_create registered
  create-run worker h h' p got missed idle ran = simp (got, missed, idle, ran)

  -- Taking a hyperobject out of a worker's sound map that is not merging fails, with an assertion or
  -- an error, if the map has no view of it or one that is not the leftmost. Otherwise it succeeds: the
  -- map has one element less, stays sound, and the others are as they were.
  pub hyper_destroy_lem :
      (h : ReducerMap)
      → IsReady (some h)
      → (element h (get_hyperobject_key hb) ≡ none → hyper_destroy hb (some h) ≡ abort)
        × ((e : Elem)
            → element h (get_hyperobject_key hb) ≡ some e
            → e.view ≢ get_hyperobject_key hb
            → hyper_destroy hb (some h) ≡ abort)
        × ((e : Elem)
            → element h (get_hyperobject_key hb) ≡ some e
            → e.view ≡ get_hyperobject_key hb
            → (h' : ReducerMap) × (hyper_destroy hb (some h) ≡ ok (some h'))
              × Unregistered (get_hyperobject_key hb) h h')
  hyper_destroy_lem h (m, idle) =
      let key = get_hyperobject_key hb in
      (
        (λ nothing. elim (lookup-cases h key m) [
          | inl (missed, _) ↦ destroy-missed h idle missed
          | inr (p, found, shown) ↦ absurd (cc)
        ]),
        (λ e is other. elim (lookup-cases h key m) [
          | inl (missed, nothing) ↦ absurd (cc)
          | inr (p, found, shown) ↦
              let same : p.elem ≡ e = some-eq (sym shown ∙ is) in
              let own : p.elem.key ≡ key = element-key h key p.elem shown in
              let view : p.elem.view ≡ e.view = ap (λ (a : Elem). a.view) same in
              destroy-other h p idle found (λ top. other (sym view ∙ sym top ∙ own))
        ]),
        λ e is top. destroy-Unregistered h e (m, idle) is (element-key h key e is ∙ sym top),
      )

  -- Take a hyperobject whose key is not null, and a worker with no map, or a sound one that is not
  -- merging and has no view of it. Registering it and unregistering it both succeed, between them
  -- every lookup gives the leftmost view, and afterwards the map is sound and has, for every key, what
  -- it had before.
  pub hyper_destroy-hyper_create :
      (worker : Option ReducerMap)
      → get_hyperobject_key hb ≢ 0
      → IsReady worker
      → view_of worker (get_hyperobject_key hb) ≡ none
      → (h : ReducerMap) × (h' : ReducerMap) × (hyper_create hb worker ≡ ok (some h))
        × ((fresh : ℕ) → hyper_lookup fresh hb (some h) ≡ ok (some h, get_hyperobject_key hb))
        × (hyper_destroy hb (some h) ≡ ok (some h'))
        × IsReady (some h')
        × ((k : ℕ) → element h' k ≡ view_of worker k)
  unfolding registered
  hyper_destroy-hyper_create worker key ready absent =
      let k = get_hyperobject_key hb in
      let (h0, got, m, idle, top, same) = worker_map_lem worker ready in
      let nothing : element h0 k ≡ none = same k ∙ absent in
      let (h, p, ran, ins, _) = rehash_and_insert-Inserted registered h0 m key key nothing in
      let is : element h k ≡ some registered = ground (arith, ins.holds k) in
      let ready_h : IsReady (some h) = (ins.sound, ins.merging ∙ idle) in
      let missed : lookup k h0 ≡ ok none = elim (lookup-cases h0 k m) [
        | inl (missed, _) ↦ missed
        | inr (p, found, shown) ↦ absurd (cc)
      ] in
      let (h', gone, u) = destroy-Unregistered h registered ready_h is refl in
      (
        h,
        h',
        create-run worker h0 h p got missed idle ran,
        (λ fresh. lookup-found hb key fresh h registered ready_h is),
        gone,
        (u.sound, u.merging ∙ ins.merging ∙ idle),
        λ j. ground (arith, u.holds j, ins.holds j, same j, absent),
      )
