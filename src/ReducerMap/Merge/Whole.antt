-- ===== src/ReducerMap/Merge/Whole.antt =====
-- `cilkred_map::merge` as a whole: what a merge of one map into another does.
use cilk_l.Prelude.{
  ℕ, ◌≤◌, ◌≡◌, refl, sym, ap, ◌∙◌, Bool, true, false, ◌||◌, Option, none, some, List, [], ◌∷◌,
  arith, ℕ_discrete, count, ok,
}
use cilk_l.ReducerMap.{Elem, Bucket, ReducerMap}
use cilk_l.ReducerMap.Table.{entry, occurs, elements, element, IsMap, entry-none, occurs-entry}
use cilk_l.ReducerMap.Rehash.{gather-AllNonNull, elements_lem}
use cilk_l.ReducerMap.Merge.{MergeKind, merge_buckets, merge_map, destroy_buckets}
use cilk_l.ReducerMap.Merge.Round.{IsOrdered}
use cilk_l.ReducerMap.Merge.Loop.{AllMine, Owned, MergedAt, merge_list-Looped}
use cilk_l.ReducerMap.Merge.Arrays.{dropped, merge_buckets-list}
use cilk_l.ReducerMap.Merge.Dropped.{doomed, count-dropped, AllLeft-AllKeys}

-- What holds of the elements by their keys holds of all of them, if the keys are different.
entries-AllMine :
    (owner : ℕ → ℕ) (tl : Bool) (os : List Elem)
    → ((k : ℕ) → occurs k os ≤ 1)
    → ((k : ℕ) (o : Elem) → entry k os ≡ some o → (owner o.view ≡ k) × (tl ≡ true → owner k ≡ k))
    → AllMine owner tl os
unfolding AllMine entry occurs
entries-AllMine owner tl [] once own = omega arith
entries-AllMine owner tl (o ∷ os) once own =
    let (view, leftmost) = own o.key o (ground arith) in
    (
      view,
      leftmost,
      entries-AllMine owner tl os (λ k. omega (arith, once k))
          (λ k x e. own k x (elim (ℕ_discrete o.key k) [
            | yes same ↦ let nothing = entry-none k os (ground (arith, once k)) in absurd (cc)
            | no other ↦ ground arith
          ])),
    )

-- The flags of a map do not matter for what it holds.
flags-IsMap :
    (h : ReducerMap) (a b : Bool) → IsMap h → IsMap (record h { merging = a; is_leftmost = b })
flags-IsMap h a b m = record {
  log = m.log;
  power = m.power;
  sound = m.sound;
  placed = m.placed;
  once = m.once;
  counted = m.counted;
}

pub or-false : (a b : Bool) → b ≡ false → (a || b) ≡ a
or-false true b e = refl
or-false false b e = e

-- `owner` says which key a view belongs to.
module _ {V : Type 0} (reduce : ℕ → V → V → V) (owner : ℕ → ℕ) where
  -- What a merge into a map does; `gone` are the views that it destroys.
  pub record MapMerged (kind : MergeKind) (this other : ReducerMap) (mem : ℕ → V) (h : ReducerMap)
      (mem' : ℕ → V) (gone : List ℕ) : Type 0 where
    pub sound : IsMap h
    pub is_leftmost : h.is_leftmost ≡ this.is_leftmost
    pub untouched : (k : ℕ) → element other k ≡ none → element h k ≡ element this k
    pub merged :
        (k : ℕ) (o : Elem)
        → element other k ≡ some o
        → MergedAt reduce kind this.is_leftmost this mem h mem' o k
    pub frame : (a : ℕ) → element other (owner a) ≡ none → mem' a ≡ mem a
    pub owned : Owned owner h
    pub destroyed :
        (v : ℕ) → count v gone ≡ doomed owner kind this.is_leftmost this (element other (owner v)) v

  merge_map-run :
      (kind : MergeKind) (this other : ReducerMap) (mem : ℕ → V) (h : ReducerMap) (mem' : ℕ → V)
      (bs : ℕ → Option Bucket) (gone : List ℕ)
      → other.is_leftmost ≡ false
      → merge_buckets reduce kind this.is_leftmost 0 other.nbuckets other.buckets
          (record this { merging = true })
          mem
        ≡ ok (h, mem', bs)
      → destroy_buckets bs 0 other.nbuckets ≡ ok gone
      → merge_map reduce kind this other mem
        ≡ ok (
          record h { is_leftmost = h.is_leftmost || other.is_leftmost; merging = false },
          mem',
          gone,
        )
  unfolding merge_map
  merge_map-run kind this other mem h mem' bs gone plain looped destroyed =
      rw (plain, looped, destroyed) refl

  pub merge_map-MapMerged :
      (kind : MergeKind) (this other : ReducerMap) (mem : ℕ → V)
      → IsOrdered kind
      → IsMap this
      → IsMap other
      → other.is_leftmost ≡ false
      → Owned owner this
      → Owned owner other
      → ((k : ℕ) (o : Elem) → element other k ≡ some o → this.is_leftmost ≡ true → owner k ≡ k)
      → (h : ReducerMap) × (mem' : ℕ → V) × (gone : List ℕ) × (merge_map reduce kind this other mem
          ≡ ok (h, mem', gone))
        × MapMerged kind this other mem h mem' gone
  unfolding element
  merge_map-MapMerged kind this other mem ordered mt mo plain own_t own_o leftmost =
      let start : ReducerMap = record this { merging = true } in
      let os = elements other in
      let once : (k : ℕ) → occurs k os ≤ 1 = λ k. (elements_lem other k mo).0 in
      let found : (k : ℕ) → entry k os ≡ element other k = λ k. (elements_lem other k mo).1 in
      let all = gather-AllNonNull other.nbuckets other.buckets 0 other.nbuckets mo.placed in
      let mine = entries-AllMine owner this.is_leftmost os once (λ k o e.
        let e' : element other k ≡ some o = sym (found k) ∙ e in (own_o k o e', leftmost k o e')) in
      let (h, mem', os', ran, l) =
        merge_list-Looped reduce owner kind this.is_leftmost ordered os start mem
          (flags-IsMap this true this.is_leftmost mt) own_t all mine once in
      let (bs, looped, gone, _) =
        merge_buckets-list reduce kind this.is_leftmost 0 other.nbuckets other.buckets start mem
          (h, mem', os') (λ j le. mo.sound j) ran
          (AllLeft-AllKeys kind this.is_leftmost start os os' all l.left) in
      let h' : ReducerMap = record h {
        is_leftmost = h.is_leftmost || other.is_leftmost;
        merging = false;
      } in
      (
        h',
        mem',
        dropped os',
        merge_map-run kind this other mem h mem' bs (dropped os') plain looped gone,
        record {
          sound = flags-IsMap h false (h.is_leftmost || other.is_leftmost) l.sound;
          is_leftmost = or-false h.is_leftmost other.is_leftmost plain ∙ l.is_leftmost;
          untouched = λ k nothing. l.untouched k (occurs-entry k os (found k ∙ nothing));
          merged = λ k o e. l.merged k o (found k ∙ e);
          frame = λ a nothing. l.frame a (occurs-entry (owner a) os (found (owner a) ∙ nothing));
          owned = l.owned;
          destroyed = λ v.
              count-dropped owner kind this.is_leftmost start own_t os os' v mine once l.left
              ∙ ap (λ f. doomed owner kind this.is_leftmost this f v) (found (owner v));
        },
      )
