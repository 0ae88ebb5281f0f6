-- ===== src/ReducerMap/Merge/Views.antt =====
-- Writing a view into an element of a sound map.
use cilk_l.Prelude.{
  ℕ, suc, ◌+◌, ◌≤◌, ◌<◌, ◌≡◌, ◌≢◌, refl, sym, ap, ap₂, ◌∙◌, inl, inr, true, none, some, List, [],
  ◌∷◌, length, set, arith, ltb, lt→ltb, ◌==◌, if◌then◌else◌, update, update_self, update_ne,
  length-set, Bool-cases, Option-cases, ℕ_discrete, ok,
}
use cilk_l.ReducerMap.{Elem, Bucket, ReducerMap, Place, lookup, hashfun}
use cilk_l.ReducerMap.Hash.{hashfun-lt}
use cilk_l.ReducerMap.Buckets.{IsEnded, contents, IsBucket?, used, IsBucket}
use cilk_l.ReducerMap.Table.{
  entry, occurs, place_of, AllAt, home, element, IsMap, IsMap-pos, lookup-place, used-cons,
}
use cilk_l.ReducerMap.Insert.{update-all, gather-update}
use cilk_l.ReducerMap.Merge.{put_view}

-- The elements of a bucket after the view of one is written.
record Revised (n b : ℕ) (e : Elem) (es es' : List Elem) : Type 0 where
  ended : IsEnded es'
  placed : AllAt n b (used es')
  same : (k : ℕ) → occurs k (used es') ≡ occurs k (used es)
  holds : (k : ℕ) → entry k (used es') ≡ (if e.key == k then some e else entry k (used es))
  size : length (used es') ≡ length (used es)

set-Revised :
    (n key b i v : ℕ) (es : List Elem) (p : Place)
    → v ≢ 0
    → IsEnded es
    → AllAt n b (used es)
    → place_of key b i (used es) ≡ some p
    → (j : ℕ) × (p.index ≡ i + j)
      × (p.bucket ≡ b)
      × (p.elem.key ≡ key)
      × (entry key (used es) ≡ some p.elem)
      × (j < length es)
      × Revised n b (record p.elem { view = v }) es (set es j (record p.elem { view = v }))
unfolding IsEnded place_of AllAt entry occurs used
set-Revised n key b i v [] p view ended all at = absurd (omega arith)
set-Revised n key b i v (e ∷ es) p view (inl (z, null)) all at = absurd (ground arith)
set-Revised n key b i v (e ∷ es) p view (inr (nz, ended)) all at =
    let here : AllAt n b (e ∷ used es) = rw (used-cons e es nz) at all in
    let at' : place_of key b i (e ∷ used es) ≡ some p = rw (used-cons e es nz) at at in
    elim (Bool-cases (e.key == key)) [
      | inl found ↦
          let x : Elem = record p.elem { view = v } in
          let pe : p.elem ≡ e = ground arith in
          let keys : p.elem.key ≡ e.key = ap (λ (y : Elem). y.key) pe in
          let xs = used-cons x es (λ z. nz (sym keys ∙ z)) in
          let slot : hashfun n x.key ≡ b = ap (hashfun n) keys ∙ here.2 in
          (
            0,
            ground arith,
            ground arith,
            ground arith,
            ground (arith, pe),
            omega arith,
            record {
              ended = inr ((λ z. nz (sym keys ∙ z)), ended);
              placed = rw xs ((λ z. nz (sym keys ∙ z)), view, slot, here.3);
              same = λ k. ground (arith, xs, used-cons e es nz);
              holds = λ k. ground (arith, xs, used-cons e es nz);
              size = ap length xs ∙ sym (ap length (used-cons e es nz));
            },
          )
      | inr other ↦
          let rest : place_of key b (suc i) (used es) ≡ some p = ground arith in
          let (j, index, bucket, same, shown, inside, r) =
            set-Revised n key b (suc i) v es p view ended here.3 rest in
          let tail = set es j (record p.elem { view = v }) in
          let us = used-cons e es nz in
          let us' = used-cons e tail nz in
          (
            suc j,
            omega (arith, index),
            bucket,
            same,
            ground (arith, shown),
            omega (arith, inside),
            record {
              ended = inr (nz, r.ended);
              placed = rw us' (here.0, here.1, here.2, r.placed);
              same = λ k. ground (arith, us, us', r.same k);
              holds = λ k. ground (arith, us, us', r.holds k);
              size = ap length us' ∙ ap suc r.size ∙ sym (ap length us);
            },
          )
    ]

-- A map after the view of one element is written; `e` is the element then.
pub record Viewed (e : Elem) (h h' : ReducerMap) : Type 0 where
  pub sound : IsMap h'
  pub holds : (k : ℕ) → element h' k ≡ (if e.key == k then some e else element h k)
  pub kept : h'.nelem ≡ h.nelem
  pub merging : h'.merging ≡ h.merging
  pub is_leftmost : h'.is_leftmost ≡ h.is_leftmost

module _ (h : ReducerMap) (m : IsMap h) (key v : ℕ) (p : Place) (view : v ≢ 0) where
  abbrev i : ℕ
  i = hashfun h.nbuckets key

  abbrev e : Elem
  e = record p.elem { view = v }

  abbrev revised : Bucket → ReducerMap
  revised b = record h { buckets = update h.buckets i (some b) }

  -- The bucket of the key, with the element revised.
  module _ (b : Bucket) (j : ℕ) (is : h.buckets i ≡ some b)
      (r : Revised h.nbuckets i e b.el (set b.el j e)) (same_key : p.elem.key ≡ key) where
    abbrev b' : Bucket
    b' = record b { el = set b.el j e }

    old_home : home h key ≡ used b.el
    old_home = ap contents is

    old_sound : IsBucket b
    old_sound = rw is at (m.sound i)

    revised-IsMap : IsMap (revised b')
    revised-IsMap = record {
      log = m.log;
      power = m.power;
      sound =
          update-all (λ k. IsBucket?) h.buckets i (some b')
            (record { sized = length-set b.el j e ∙ old_sound.sized; ended = r.ended }) m.sound;
      placed =
          update-all (λ k c. AllAt h.nbuckets k (contents c)) h.buckets i (some b') r.placed
            m.placed;
      once = λ k key'.
          update-all (λ l c. occurs key' (contents c) ≤ 1) h.buckets i (some b')
            (omega (arith, r.same key', m.once i key', ap (occurs key') old_home))
            (λ l. m.once l key') k;
      counted = omega (
        arith,
        m.counted,
        gather-update h.buckets i 0 h.nbuckets (some b') (omega arith)
            (omega (arith, hashfun-lt h.nbuckets key (IsMap-pos h m))),
        ap length old_home,
        r.size,
      );
    }

    revised-holds : (k : ℕ) → element (revised b') k ≡ (if e.key == k then some e else element h k)
    unfolding element
    revised-holds k = elim (ℕ_discrete i (hashfun h.nbuckets k)) [
      | yes same ↦
          let here : home (revised b') k ≡ used (set b.el j e) =
            ap (λ l. contents (update h.buckets i (some b') l)) (sym same)
            ∙ ap contents (update_self h.buckets i (some b')) in
          let old : home h k ≡ used b.el = ap (λ l. contents (h.buckets l)) (sym same) ∙ old_home in
          rw (here, old) (r.holds k)
      | no other ↦
          let there : home (revised b') k ≡ home h k =
            ap contents (update_ne h.buckets i (hashfun h.nbuckets k) (some b') other) in
          let ne : p.elem.key ≢ k = λ same. other (ap (hashfun h.nbuckets) (sym same_key ∙ same)) in
          rw there (ground arith)
    ]

  put_view-run :
      (b : Bucket) (j : ℕ)
      → h.buckets i ≡ some b
      → p.bucket ≡ i
      → p.index ≡ j
      → j < length b.el
      → put_view p v h ≡ ok (revised (record b { el = set b.el j e }))
  unfolding put_view
  put_view-run b j is bucket index inside =
      let is' : h.buckets p.bucket ≡ some b = ap h.buckets bucket ∙ is in
      let inside' : ltb p.index (length b.el) ≡ true = lt→ltb p.index (length b.el) (omega arith) in
      rw (put_view, is', inside')
        (ap₂
          (λ (k l : ℕ).
            ok (record h { buckets = update h.buckets k (some (record b { el = set b.el l e })) }))
          bucket index)

  -- Writing through a pointer that `lookup` has returned.
  pub put_view-Viewed :
      lookup key h ≡ ok (some p)
      → (h' : ReducerMap) × (put_view p v h ≡ ok h')
        × Viewed e h h'
        × (p.elem.key ≡ key)
        × (element h key ≡ some p.elem)
  unfolding element
  put_view-Viewed found = elim (Option-cases (h.buckets i)) [
    | inl null ↦
        let nowhere : place_of key i 0 (home h key) ≡ none =
          unfold place_of in ap (λ c. place_of key i 0 (contents c)) null in
        absurd (cc (lookup-place h key m))
    | inr (b, is) ↦
        let at : place_of key i 0 (home h key) ≡ some p = cc (lookup-place h key m) in
        let here : home h key ≡ used b.el = ap contents is in
        let at' : place_of key i 0 (used b.el) ≡ some p = ap (place_of key i 0) (sym here) ∙ at in
        let wf : IsBucket b = rw is at (m.sound i) in
        let all : AllAt h.nbuckets i (used b.el) = rw is at (m.placed i) in
        let (j, index, bucket, same, shown, inside, r) =
          set-Revised h.nbuckets key i 0 v b.el p view wf.ended all at' in
        let index' : p.index ≡ j = omega (arith, index) in
        (
          revised (b' b j is r same),
          put_view-run b j is bucket index' inside,
          record {
            sound = revised-IsMap b j is r same;
            holds = revised-holds b j is r same;
            kept = refl;
            merging = refl;
            is_leftmost = refl;
          },
          same,
          ap (entry key) here ∙ shown,
        )
  ]
