-- ===== src/ReducerMap/Merge/Arrays.antt =====
-- The loops of a merge over buckets and their elements are one loop over all the elements, and the
-- other map is destroyed with what that loop leaves.
use mathlib.Core.Path.{subst}
use mathlib.Core.List.{append_assoc}
use cilk_l.Prelude.{
  ℕ, zero, suc, ◌≤◌, ◌<◌, ◌≡◌, ◌≢◌, refl, sym, ap, ◌∙◌, inl, inr, Bool, Option, none, some, List,
  [], ◌∷◌, ◌++◌, arith, ne→false, ◌==◌, ==_iff, if◌then◌else◌, Option-cases, update, update_self,
  update_ne, ok, bind_ok, ok_inj,
}
use cilk_l.ReducerMap.{Elem, Bucket, ReducerMap}
use cilk_l.ReducerMap.Buckets.{IsEnded, contents, IsBucket?, used, IsBucket}
use cilk_l.ReducerMap.Table.{gather, used-cons}
use cilk_l.ReducerMap.Insert.{gather-update_below}
use cilk_l.ReducerMap.Merge.{
  MergeKind, Merged, merge_element, merge_elements, merge_buckets, destroy, destroy_elems,
  destroy_buckets,
}
use cilk_l.ReducerMap.Merge.Loop.{merge_list}

-- The views that are destroyed with the elements that are left.
unfoldable pub dropped : List Elem → List ℕ
dropped [] = []
dropped (o ∷ os) = (if o.view == 0 then [] else destroy o) ++ dropped os

unfoldable pub AllKeys : List Elem → Type 0
AllKeys [] = 0 ≤ 0
AllKeys (o ∷ os) = (o.key ≢ 0) × AllKeys os

AllKeys-split : (us vs : List Elem) → AllKeys (us ++ vs) → AllKeys us × AllKeys vs
unfolding AllKeys
AllKeys-split [] vs h = (omega arith, h)
AllKeys-split (o ∷ us) vs (k, h) = let (a, b) = AllKeys-split us vs h in ((k, a), b)

dropped-append : (us vs : List Elem) → dropped (us ++ vs) ≡ dropped us ++ dropped vs
unfolding dropped
dropped-append [] vs = refl
dropped-append (o ∷ us) vs =
    ap (λ l. (if o.view == 0 then [] else destroy o) ++ l) (dropped-append us vs)
    ∙ sym (append_assoc (if o.view == 0 then [] else destroy o) (dropped us) (dropped vs))

destroy_elems-cons :
    (o : Elem) (os : List Elem) (vs : List ℕ)
    → o.key ≢ 0
    → destroy_elems os ≡ ok vs
    → destroy_elems (o ∷ os) ≡ ok ((if o.view == 0 then [] else destroy o) ++ vs)
unfolding destroy_elems
destroy_elems-cons o os vs nz rest = rw (ne→false o.key 0 nz, rest) refl

destroy_buckets-null :
    (bs : ℕ → Option Bucket) (i n : ℕ)
    → bs i ≡ none
    → destroy_buckets bs i (suc n) ≡ destroy_buckets bs (suc i) n
unfolding destroy_buckets
destroy_buckets-null bs i n null = rw (destroy_buckets, null) refl

destroy_buckets-some :
    (bs : ℕ → Option Bucket) (i n : ℕ) (b : Bucket) (us vs : List ℕ)
    → bs i ≡ some b
    → destroy_elems b.el ≡ ok us
    → destroy_buckets bs (suc i) n ≡ ok vs
    → destroy_buckets bs i (suc n) ≡ ok (us ++ vs)
unfolding destroy_buckets
destroy_buckets-some bs i n b us vs is here rest = rw (destroy_buckets, is, here, rest) refl

module _ {V : Type 0} (reduce : ℕ → V → V → V) (kind : MergeKind) (tl : Bool) where
  merge_elements-cons :
      (o : Elem) (os es : List Elem) (h : ReducerMap) (mem : ℕ → V) (q : Merged reduce Elem)
      (h' : ReducerMap) (mem' : ℕ → V)
      → o.key ≢ 0
      → merge_element reduce kind tl o h mem ≡ ok q
      → merge_elements reduce kind tl os q.0 q.1 ≡ ok (h', mem', es)
      → merge_elements reduce kind tl (o ∷ os) h mem ≡ ok (h', mem', q.2 ∷ es)
  unfolding merge_elements
  merge_elements-cons o os es h mem q h' mem' nz first rest =
      rw (ne→false o.key 0 nz, first, rest) refl

  merge_buckets-null :
      (i n : ℕ) (bs : ℕ → Option Bucket) (h : ReducerMap) (mem : ℕ → V)
      → bs i ≡ none
      → merge_buckets reduce kind tl i (suc n) bs h mem
        ≡ merge_buckets reduce kind tl (suc i) n bs h mem
  unfolding merge_buckets
  merge_buckets-null i n bs h mem null = rw (merge_buckets, null) refl

  merge_buckets-some :
      (i n : ℕ) (bs : ℕ → Option Bucket) (h : ReducerMap) (mem : ℕ → V) (b : Bucket)
      (h' : ReducerMap) (mem' : ℕ → V) (es : List Elem)
      → bs i ≡ some b
      → merge_elements reduce kind tl b.el h mem ≡ ok (h', mem', es)
      → merge_buckets reduce kind tl i (suc n) bs h mem
        ≡ merge_buckets reduce kind tl (suc i) n (update bs i (some (record b { el = es }))) h' mem'
  unfolding merge_buckets
  merge_buckets-some i n bs h mem b h' mem' es is ran = rw (merge_buckets, is, ran) refl

  merge_list-cons :
      (o : Elem) (os : List Elem) (h : ReducerMap) (mem : ℕ → V) (r : Merged reduce (List Elem))
      → merge_list reduce kind tl (o ∷ os) h mem ≡ ok r
      → (q : Merged reduce Elem) × (s : Merged reduce (List Elem)) × (merge_element reduce kind tl o
            h mem
          ≡ ok q)
        × (merge_list reduce kind tl os q.0 q.1 ≡ ok s)
        × ((s.0, s.1, q.2 ∷ s.2) ≡ r)
  unfolding merge_list
  merge_list-cons o os h mem r e =
      let (q, e', first) = bind_ok _ r (merge_element reduce kind tl o h mem) e in
      let (s, e'', rest) = bind_ok _ r (merge_list reduce kind tl os q.0 q.1) e' in
      (q, s, first, rest, ok_inj e'')

  merge_list-append :
      (us vs : List Elem) (h : ReducerMap) (mem : ℕ → V) (r : Merged reduce (List Elem))
      → merge_list reduce kind tl (us ++ vs) h mem ≡ ok r
      → (q : Merged reduce (List Elem)) × (s : Merged reduce (List Elem)) × (merge_list reduce kind
            tl us h mem
          ≡ ok q)
        × (merge_list reduce kind tl vs q.0 q.1 ≡ ok s)
        × ((s.0, s.1, q.2 ++ s.2) ≡ r)
  unfolding merge_list
  merge_list-append [] vs h mem r e = ((h, mem, []), r, refl, e, refl)
  merge_list-append (o ∷ us) vs h mem r e =
      let (q, s, first, rest, is) = merge_list-cons o (us ++ vs) h mem r e in
      let (q', s', front, back, is') = merge_list-append us vs q.0 q.1 s rest in
      (
        (q'.0, q'.1, q.2 ∷ q'.2),
        s',
        rw (first, front) refl,
        back,
        ap (λ (t : Merged reduce (List Elem)). (t.0, t.1, q.2 ∷ t.2)) is' ∙ is,
      )

  -- What the loop over a bucket does with an array whose elements the list loop merges.
  abbrev ElementsLike : List Elem → ReducerMap → (ℕ → V) → Merged reduce (List Elem) → Type 0
  ElementsLike es h mem r =
      (es' : List Elem) × (merge_elements reduce kind tl es h mem ≡ ok (r.0, r.1, es'))
      × (destroy_elems es' ≡ ok (dropped r.2))

  merge_elements-list :
      (es : List Elem) (h : ReducerMap) (mem : ℕ → V) (r : Merged reduce (List Elem))
      → IsEnded es
      → merge_list reduce kind tl (used es) h mem ≡ ok r
      → AllKeys r.2
      → ElementsLike es h mem r
  unfolding merge_elements destroy_elems IsEnded used merge_list dropped AllKeys
  merge_elements-list [] h mem r ended e keys = absurd (omega arith)
  merge_elements-list (o ∷ os) h mem r (inl (z, null)) e keys =
      let nothing : used (o ∷ os) ≡ [] = ground arith in
      let is : (h, mem, []) ≡ r =
        ok_inj (ap (λ l. merge_list reduce kind tl l h mem) (sym nothing) ∙ e) in
      subst (ElementsLike (o ∷ os) h mem) is
        (o ∷ os, rw ((==_iff o.key 0).1 z) refl, rw ((==_iff o.key 0).1 z) refl)
  merge_elements-list (o ∷ os) h mem r (inr (nz, ended)) e keys =
      let e' : merge_list reduce kind tl (o ∷ used os) h mem ≡ ok r =
        ap (λ l. merge_list reduce kind tl l h mem) (sym (used-cons o os nz)) ∙ e in
      let (q, s, first, rest, is) = merge_list-cons o (used os) h mem r e' in
      let (key, keys') : AllKeys (q.2 ∷ s.2) =
        subst (λ (t : Merged reduce (List Elem)). AllKeys t.2) (sym is) keys in
      let (es', ran, gone) = merge_elements-list os q.0 q.1 s ended rest keys' in
      subst (ElementsLike (o ∷ os) h mem) is (
        q.2 ∷ es',
        merge_elements-cons o os es' h mem q s.0 s.1 nz first ran,
        destroy_elems-cons q.2 es' (dropped s.2) key gone,
      )

  -- What the loop over buckets does where the list loop merges all their elements.
  abbrev BucketsLike :
      ℕ → ℕ → (ℕ → Option Bucket) → ReducerMap → (ℕ → V) → Merged reduce (List Elem) → Type 0
  BucketsLike i n bs h mem r =
      (bs' : ℕ → Option Bucket) × (merge_buckets reduce kind tl i n bs h mem ≡ ok (r.0, r.1, bs'))
      × (destroy_buckets bs' i n ≡ ok (dropped r.2))
      × ((j : ℕ) → j < i → bs' j ≡ bs j)

  pub merge_buckets-list :
      (i n : ℕ) (bs : ℕ → Option Bucket) (h : ReducerMap) (mem : ℕ → V)
      (r : Merged reduce (List Elem))
      → ((j : ℕ) → i ≤ j → IsBucket? (bs j))
      → merge_list reduce kind tl (gather bs i n) h mem ≡ ok r
      → AllKeys r.2
      → BucketsLike i n bs h mem r
  unfolding merge_buckets destroy_buckets gather merge_list dropped
  merge_buckets-list i zero bs h mem r sound e keys =
      subst (BucketsLike i zero bs h mem) (ok_inj e) (bs, refl, refl, λ j lt. refl)
  merge_buckets-list i (suc n) bs h mem r sound e keys = elim (Option-cases (bs i)) [
    | inl null ↦
        let e' : merge_list reduce kind tl (gather bs (suc i) n) h mem ≡ ok r =
          ap (λ c. merge_list reduce kind tl (contents c ++ gather bs (suc i) n) h mem) (sym null)
          ∙ e in
        let (bs', ran, gone, kept) =
          merge_buckets-list (suc i) n bs h mem r (λ j le. sound j (omega arith)) e' keys in
        let null' : bs' i ≡ none = kept i (omega arith) ∙ null in
        (
          bs',
          merge_buckets-null i n bs h mem null ∙ ran,
          destroy_buckets-null bs' i n null' ∙ gone,
          λ j lt. kept j (omega arith),
        )
    | inr (b, is) ↦
        let wf : IsBucket b = rw is at (sound i (omega arith)) in
        let e' : merge_list reduce kind tl (used b.el ++ gather bs (suc i) n) h mem ≡ ok r =
          ap (λ c. merge_list reduce kind tl (contents c ++ gather bs (suc i) n) h mem) (sym is)
          ∙ e in
        let (q, s, front, back, same) =
          merge_list-append (used b.el) (gather bs (suc i) n) h mem r e' in
        let (keys_q, keys_s) =
          AllKeys-split q.2 s.2
            (subst (λ (t : Merged reduce (List Elem)). AllKeys t.2) (sym same) keys) in
        let (es', ran, gone) = merge_elements-list b.el h mem q wf.ended front keys_q in
        let b' : Bucket = record b { el = es' } in
        let bs1 : ℕ → Option Bucket = update bs i (some b') in
        let back' : merge_list reduce kind tl (gather bs1 (suc i) n) q.0 q.1 ≡ ok s =
          ap (λ l. merge_list reduce kind tl l q.0 q.1)
            (gather-update_below bs i (suc i) n (some b') (omega arith))
          ∙ back in
        let (bs', ran', gone', kept) =
          merge_buckets-list (suc i) n bs1 q.0 q.1 s
            (λ j le. rw (update_ne bs i j (some b') (omega arith)) (sound j (omega arith))) back'
            keys_s in
        let here : bs' i ≡ some b' = kept i (omega arith) ∙ update_self bs i (some b') in
        subst (BucketsLike i (suc n) bs h mem) same (
          bs',
          merge_buckets-some i n bs h mem b q.0 q.1 es' is ran ∙ ran',
          destroy_buckets-some bs' i n b' (dropped q.2) (dropped s.2) here gone gone'
              ∙ ap ok (sym (dropped-append q.2 s.2)),
          λ j lt. kept j (omega arith) ∙ update_ne bs i j (some b') (omega arith),
        )
  ]
