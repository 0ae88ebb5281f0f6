-- ===== src/ReducerMap/Merge/Round.antt =====
-- One round of the loop of a merge: what becomes of the other map's element.
use cilk_l.Prelude.{
  ℕ, ◌≤◌, ◌≡◌, ◌≢◌, refl, sym, ap, ◌∙◌, inl, inr, Bool, true, false, not, ◌&&◌, Option, none, some,
  arith, ne→false, ◌==◌, if◌then◌else◌, update, update_self, update_ne, Bool-cases, ok,
}
use cilk_l.ReducerMap.{Elem, ReducerMap, Place, lookup}
use cilk_l.ReducerMap.Table.{element, IsMap, lookup-some, lookup-cases}
use cilk_l.ReducerMap.Rehash.{rehash_and_insert-Inserted}
use cilk_l.ReducerMap.Merge.{
  MergeKind, merge_unordered, merge_into_left, merge_into_right, this_element, reduce_element,
  merge_element,
}
use cilk_l.ReducerMap.Merge.Views.{put_view-Viewed}

-- The two kinds that `merge_reducer_maps` asks for.
unfoldable pub IsOrdered : MergeKind → Type 0
IsOrdered merge_unordered = 1 ≤ 0
IsOrdered merge_into_left = 0 ≤ 0
IsOrdered merge_into_right = 0 ≤ 0

-- The view that an element is merged with: that of the map's own element, or a leftmost view that is
-- made for it.
unfoldable pub partner : Bool → Option Elem → Elem → Option ℕ
partner to_leftmost (some a) o = some a.view
partner to_leftmost none o = if to_leftmost && not (o.key == o.view) then some o.key else none

-- What is left in the other map's element: the view to be destroyed, or none.
unfoldable pub leftover : MergeKind → Option ℕ → Elem → ℕ
leftover kind none o = 0
leftover merge_unordered (some t) o = o.view
leftover merge_into_left (some t) o = o.view
leftover merge_into_right (some t) o = t

module _ {V : Type 0} (reduce : ℕ → V → V → V) where
  -- The view that stays, and its value.
  unfoldable pub outcome : MergeKind → (ℕ → V) → Option ℕ → Elem → ℕ × V
  outcome kind mem none o = (o.view, mem o.view)
  outcome merge_unordered mem (some t) o = (t, reduce o.hb (mem t) (mem o.view))
  outcome merge_into_left mem (some t) o = (t, reduce o.hb (mem t) (mem o.view))
  outcome merge_into_right mem (some t) o = (o.view, reduce o.hb (mem o.view) (mem t))

  -- `owner` says which key a view belongs to.
  pub record Round (owner : ℕ → ℕ) (kind : MergeKind) (t : Option ℕ) (o : Elem) (h : ReducerMap)
      (mem : ℕ → V) (h' : ReducerMap) (mem' : ℕ → V) (o' : Elem) : Type 0 where
    pub sound : IsMap h'
    pub others : (k : ℕ) → o.key ≢ k → element h' k ≡ element h k
    pub elem : Elem
    pub shown : element h' o.key ≡ some elem
    pub view : elem.view ≡ (outcome kind mem t o).0
    pub value : mem' elem.view ≡ (outcome kind mem t o).1
    pub frame : (a : ℕ) → owner a ≢ o.key → mem' a ≡ mem a
    pub owned : owner elem.view ≡ o.key
    pub left : o'.view ≡ leftover kind t o
    pub same_key : o'.key ≡ o.key
    pub is_leftmost : h'.is_leftmost ≡ h.is_leftmost

  module _ (owner : ℕ → ℕ) (o : Elem) (mem : ℕ → V) (key : o.key ≢ 0) (view : o.view ≢ 0)
      (own : owner o.view ≡ o.key) where
    -- A write to a view of the key leaves the others alone.
    write-frame :
        (t : ℕ) (v : V) → owner t ≡ o.key → (a : ℕ) → owner a ≢ o.key → update mem t v a ≡ mem a
    write-frame t v mine a other = update_ne mem t a v (λ e. other (ap owner (sym e) ∙ mine))

    reduce_element-Round :
        (kind : MergeKind) (p : Place) (h : ReducerMap)
        → IsOrdered kind
        → IsMap h
        → lookup o.key h ≡ ok (some p)
        → owner p.elem.view ≡ o.key
        → (h' : ReducerMap) × (mem' : ℕ → V) × (o' : Elem) × (reduce_element reduce kind o p h mem
            ≡ ok (h', mem', o'))
          × Round owner kind (some p.elem.view) o h mem h' mem' o'
    unfolding reduce_element IsOrdered outcome leftover
    reduce_element-Round merge_unordered p h ordered m found mine = absurd (omega arith)
    reduce_element-Round merge_into_left p h ordered m found mine =
        let t = p.elem.view in
        let v = reduce o.hb (mem t) (mem o.view) in
        (
          h,
          update mem t v,
          o,
          refl,
          record {
            sound = m;
            others = λ k ne. refl;
            elem = p.elem;
            shown = (lookup-some h o.key p m found).0;
            view = refl;
            value = update_self mem t v;
            frame = write-frame t v mine;
            owned = mine;
            left = refl;
            same_key = refl;
            is_leftmost = refl;
          },
        )
    reduce_element-Round merge_into_right p h ordered m found mine =
        let t = p.elem.view in
        let v = reduce o.hb (mem o.view) (mem t) in
        let (h', ran, w, same, was) = put_view-Viewed h m o.key o.view p view found in
        (
          h',
          update mem o.view v,
          record o { view = t },
          rw ran refl,
          record {
            sound = w.sound;
            others = λ k ne. ground (arith, w.holds k);
            elem = record p.elem { view = o.view };
            shown = ground (arith, w.holds o.key);
            view = refl;
            value = update_self mem o.view v;
            frame = write-frame o.view v own;
            owned = own;
            left = refl;
            same_key = refl;
            is_leftmost = w.is_leftmost;
          },
        )

    made : Elem
    made = record o { view = o.key }

    -- The map has an element already.
    merge_element-present :
        (kind : MergeKind) (tl : Bool) (p : Place) (h : ReducerMap)
        → IsOrdered kind
        → IsMap h
        → lookup o.key h ≡ ok (some p)
        → owner p.elem.view ≡ o.key
        → (h' : ReducerMap) × (mem' : ℕ → V) × (o' : Elem) × (merge_element reduce kind tl o h mem
            ≡ ok (h', mem', o'))
          × Round owner kind (some p.elem.view) o h mem h' mem' o'
    unfolding merge_element this_element
    merge_element-present kind tl p h ordered m found mine =
        let (h', mem', o', ran, r) = reduce_element-Round kind p h ordered m found mine in
        (h', mem', o', rw (ne→false o.view 0 view, found) ran, r)

    -- A leftmost view is made first.
    merge_element-made :
        (kind : MergeKind) (tl : Bool) (h : ReducerMap)
        → IsOrdered kind
        → IsMap h
        → lookup o.key h ≡ ok none
        → element h o.key ≡ none
        → (tl && not (o.key == o.view)) ≡ true
        → owner o.key ≡ o.key
        → (h' : ReducerMap) × (mem' : ℕ → V) × (o' : Elem) × (merge_element reduce kind tl o h mem
            ≡ ok (h', mem', o'))
          × Round owner kind (some o.key) o h mem h' mem' o'
    unfolding merge_element this_element made
    merge_element-made kind tl h ordered m found fresh yes_made mine =
        let (g, p, ran, ins, _) = rehash_and_insert-Inserted made h m key key fresh in
        let seen : p.elem.view ≡ o.key = ap (λ (e : Elem). e.view) ins.shown in
        let (h', mem', o', reduced, r) =
          reduce_element-Round kind p g ordered ins.sound ins.located (ap owner seen ∙ mine) in
        (
          h',
          mem',
          o',
          rw (ne→false o.view 0 view, found, yes_made, ran) reduced,
          record {
            sound = r.sound;
            others = λ k ne. r.others k ne ∙ ground (arith, ins.holds k);
            elem = r.elem;
            shown = r.shown;
            view = r.view ∙ ap (λ t. (outcome kind mem (some t) o).0) seen;
            value = r.value ∙ ap (λ t. (outcome kind mem (some t) o).1) seen;
            frame = r.frame;
            owned = r.owned;
            left = r.left ∙ ap (λ t. leftover kind (some t) o) seen;
            same_key = r.same_key;
            is_leftmost = r.is_leftmost ∙ ins.is_leftmost;
          },
        )

    -- The element moves into the map.
    merge_element-moved :
        (kind : MergeKind) (tl : Bool) (h : ReducerMap)
        → IsMap h
        → lookup o.key h ≡ ok none
        → element h o.key ≡ none
        → (tl && not (o.key == o.view)) ≡ false
        → (h' : ReducerMap) × (mem' : ℕ → V) × (o' : Elem) × (merge_element reduce kind tl o h mem
            ≡ ok (h', mem', o'))
          × Round owner kind none o h mem h' mem' o'
    unfolding merge_element this_element outcome leftover
    merge_element-moved kind tl h m found fresh not_made =
        let (h', p, ran, ins, _) = rehash_and_insert-Inserted o h m key view fresh in
        (
          h',
          mem,
          record o { view = 0 },
          rw (ne→false o.view 0 view, found, not_made, ran) refl,
          record {
            sound = ins.sound;
            others = λ k ne. ground (arith, ins.holds k);
            elem = o;
            shown = ground (arith, ins.holds o.key);
            view = refl;
            value = refl;
            frame = λ a other. refl;
            owned = own;
            left = refl;
            same_key = refl;
            is_leftmost = ins.is_leftmost;
          },
        )

    -- A round merges the element into the map, and touches no other key and no view of another key.
    pub merge_element-Round :
        (kind : MergeKind) (tl : Bool) (h : ReducerMap)
        → IsOrdered kind
        → IsMap h
        → ((k : ℕ) (a : Elem) → element h k ≡ some a → owner a.view ≡ k)
        → (tl ≡ true → owner o.key ≡ o.key)
        → (h' : ReducerMap) × (mem' : ℕ → V) × (o' : Elem) × (merge_element reduce kind tl o h mem
            ≡ ok (h', mem', o'))
          × Round owner kind (partner tl (element h o.key) o) o h mem h' mem' o'
    unfolding partner
    merge_element-Round kind tl h ordered m mine leftmost = elim (lookup-cases h o.key m) [
      | inr (p, found, shown) ↦
          rw shown (merge_element-present kind tl p h ordered m found (mine o.key p.elem shown))
      | inl (found, fresh) ↦ elim (Bool-cases (tl && not (o.key == o.view))) [
        | inl made_it ↦
            rw (fresh, made_it)
              (merge_element-made kind tl h ordered m found fresh made_it (leftmost (ground arith)))
        | inr moved ↦ rw (fresh, moved) (merge_element-moved kind tl h m found fresh moved)
      ]
    ]
