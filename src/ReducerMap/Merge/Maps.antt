-- ===== src/ReducerMap/Merge/Maps.antt =====
-- Merging whole maps: `merge_reducer_maps` combines the values key by key, whichever map it keeps.
use cilk_l.Prelude.{
  ℕ, ◌≡◌, refl, sym, ap, ap₂, ◌∙◌, inl, inr, Bool, true, false, not, ◌&&◌, ◌||◌, Option, none, some,
  List, arith, ltb, ◌==◌, if◌then◌else◌, Option-cases, Bool-cases, count, ok,
}
use cilk_l.ReducerMap.{Elem, ReducerMap}
use cilk_l.ReducerMap.Table.{element, IsMap, element-key}
use cilk_l.ReducerMap.Merge.{MergeKind, merge_into_left, merge_into_right, merge_reducer_maps}
use cilk_l.ReducerMap.Merge.Round.{IsOrdered, partner, leftover, outcome}
use cilk_l.ReducerMap.Merge.Loop.{Owned, MergedAt}
use cilk_l.ReducerMap.Merge.Dropped.{doomed, fate}
use cilk_l.ReducerMap.Merge.Whole.{merge_map-MapMerged, MapMerged}

-- How often a view `v` of the key `k` is destroyed where `a` is the left map's element and `b` the right
-- one's: once if it is the right one's, that is merged, and it is no leftmost view.
abbrev pub buried : Bool → ℕ → ℕ → Option Elem → Option Elem → ℕ
buried leftmost k v a none = 0
buried leftmost k v (some a) (some b) = fate v k b.view
buried leftmost k v none (some b) = if leftmost && not (k == b.view) then fate v k b.view else 0

module _ {V : Type 0} (reduce : ℕ → V → V → V) where
  -- The view that a map has for a key, and its value.
  abbrev pub held : (ℕ → V) → Option Elem → Option (ℕ × V)
  held mem none = none
  held mem (some a) = some (a.view, mem a.view)

  -- The two maps' elements for the key `k` as they should be merged: the left one's view stays, with its
  -- value and the right one's reduced. If the left map is the leftmost, it has the leftmost view anyway.
  abbrev pub joined : Bool → (ℕ → V) → ℕ → Option Elem → Option Elem → Option (ℕ × V)
  joined leftmost mem k a none = held mem a
  joined leftmost mem k (some a) (some b) = some (a.view, reduce b.hb (mem a.view) (mem b.view))
  joined leftmost mem k none (some b) =
      if leftmost && not (k == b.view)
      then some (k, reduce b.hb (mem k) (mem b.view))
      else some (b.view, mem b.view)

  -- A merge of `l` and `r` done right.
  pub record Joined (owner : ℕ → ℕ) (l r : ReducerMap) (mem : ℕ → V) (h : ReducerMap) (mem' : ℕ → V)
      (gone : List ℕ) : Type 0 where
    pub sound : IsMap h
    pub is_leftmost : h.is_leftmost ≡ l.is_leftmost
    pub holds :
        (k : ℕ) → held mem' (element h k) ≡ joined l.is_leftmost mem k (element l k) (element r k)
    pub destroyed :
        (v : ℕ)
        → count v gone
          ≡ buried l.is_leftmost (owner v) v (element l (owner v)) (element r (owner v))
    pub elsewhere :
        (a : ℕ) → element l (owner a) ≡ none → element r (owner a) ≡ none → mem' a ≡ mem a

  left-outcome :
      (lm : Bool) (mem : ℕ → V) (a : Option Elem) (b : Elem)
      → some (outcome reduce merge_into_left mem (partner lm a b) b)
        ≡ joined lm mem b.key a (some b)
  unfolding outcome partner
  left-outcome lm mem (some a) b = refl
  left-outcome lm mem none b = elim (Bool-cases (lm && not (b.key == b.view))) [
    | inl made ↦ rw made refl
    | inr moved ↦ rw moved refl
  ]

  left-fate :
      (lm : Bool) (v : ℕ) (a : Option Elem) (b : Elem)
      → fate v b.key (leftover merge_into_left (partner lm a b) b) ≡ buried lm b.key v a (some b)
  unfolding leftover partner
  left-fate lm v (some a) b = refl
  left-fate lm v none b = elim (Bool-cases (lm && not (b.key == b.view))) [
    | inl made ↦ rw made refl
    | inr moved ↦ rw moved refl
  ]

  right-outcome :
      (lm tl : Bool) (mem : ℕ → V) (k : ℕ) (a : Elem) (c : Option Elem)
      → tl ≡ false
      → ((b : Elem) → c ≡ some b → a.hb ≡ b.hb)
      → some (outcome reduce merge_into_right mem (partner tl c a) a) ≡ joined lm mem k (some a) c
  unfolding outcome partner
  right-outcome lm tl mem k a none plain hbs = rw plain refl
  right-outcome lm tl mem k a (some b) plain hbs =
      ap (λ f. some (a.view, reduce f (mem a.view) (mem b.view))) (hbs b refl)

  right-fate :
      (lm tl : Bool) (v k : ℕ) (a : Elem) (c : Option Elem)
      → tl ≡ false
      → fate v k (leftover merge_into_right (partner tl c a) a) ≡ buried lm k v (some a) c
  unfolding leftover partner
  right-fate lm tl v k a none plain = rw plain refl
  right-fate lm tl v k a (some b) plain = refl

  joined-plain :
      (lm : Bool) (mem : ℕ → V) (k : ℕ) (c : Option Elem)
      → lm ≡ false
      → joined lm mem k none c ≡ held mem c
  joined-plain lm mem k none plain = refl
  joined-plain lm mem k (some b) plain = rw plain refl

  buried-plain : (lm : Bool) (k v : ℕ) (c : Option Elem) → lm ≡ false → buried lm k v none c ≡ 0
  buried-plain lm k v none plain = refl
  buried-plain lm k v (some b) plain = rw plain refl

  module _ (owner : ℕ → ℕ) (l r : ReducerMap) (mem : ℕ → V) (h : ReducerMap) (mem' : ℕ → V)
      (gone : List ℕ) (own_l : Owned owner l) (own_r : Owned owner r) where
    -- A key that the other map does not have.
    held-kept :
        (x y : ReducerMap) (k : ℕ)
        → Owned owner x
        → element y k ≡ none
        → element h k ≡ element x k
        → ((a : ℕ) → element y (owner a) ≡ none → mem' a ≡ mem a)
        → held mem' (element h k) ≡ held mem (element x k)
    held-kept x y k own nothing same frame = elim (Option-cases (element x k)) [
      | inl e ↦ ap (held mem') (same ∙ e) ∙ sym (ap (held mem) e)
      | inr (a, is) ↦
          ap (held mem') (same ∙ is)
          ∙ ap (λ x. some (a.view, x)) (frame a.view (ap (element y) (own k a is) ∙ nothing))
          ∙ sym (ap (held mem) is)
    ]

    -- A key that is merged.
    held-merged :
        (kind : MergeKind) (tl : Bool) (x : ReducerMap) (k : ℕ) (o : Elem)
        → MergedAt reduce kind tl x mem h mem' o k
        → held mem' (element h k) ≡ some (outcome reduce kind mem (partner tl (element x k) o) o)
    held-merged kind tl x k o (e, shown, view, value) =
        ap (held mem') shown ∙ ap₂ (λ (a : ℕ) (b : V). some (a, b)) view value

    left-Joined :
        MapMerged reduce owner merge_into_left l r mem h mem' gone
        → Joined owner l r mem h mem' gone
    left-Joined m = record {
      sound = m.sound;
      is_leftmost = m.is_leftmost;
      holds = λ k. elim (Option-cases (element r k)) [
        | inl nothing ↦
            held-kept l r k own_l nothing (m.untouched k nothing) m.frame
            ∙ sym (ap (joined l.is_leftmost mem k (element l k)) nothing)
        | inr (b, is) ↦
            held-merged merge_into_left l.is_leftmost l k b (m.merged k b is)
            ∙ left-outcome l.is_leftmost mem (element l k) b
            ∙ ap (λ j. joined l.is_leftmost mem j (element l k) (some b)) (element-key r k b is)
            ∙ sym (ap (joined l.is_leftmost mem k (element l k)) is)
      ];
      destroyed = λ v.
          let k = owner v in
          m.destroyed v ∙ elim (Option-cases (element r k)) [
            | inl nothing ↦
                ap (λ f. doomed owner merge_into_left l.is_leftmost l f v) nothing
                ∙ sym (ap (buried l.is_leftmost k v (element l k)) nothing)
            | inr (b, is) ↦
                let key = element-key r k b is in
                ap (λ f. doomed owner merge_into_left l.is_leftmost l f v) is
                ∙ ap
                    (λ j.
                      fate v j (leftover merge_into_left (partner l.is_leftmost (element l k) b) b))
                    (sym key)
                ∙ left-fate l.is_leftmost v (element l k) b
                ∙ ap (λ j. buried l.is_leftmost j v (element l k) (some b)) key
                ∙ sym (ap (buried l.is_leftmost k v (element l k)) is)
          ];
      elsewhere = λ a left right. m.frame a right;
    }

    right-Joined :
        l.is_leftmost ≡ false
        → r.is_leftmost ≡ false
        → ((k : ℕ) (a b : Elem) → element l k ≡ some a → element r k ≡ some b → a.hb ≡ b.hb)
        → MapMerged reduce owner merge_into_right r l mem h mem' gone
        → Joined owner l r mem h mem' gone
    right-Joined plain_l plain_r hbs m = record {
      sound = m.sound;
      is_leftmost = m.is_leftmost ∙ plain_r ∙ sym plain_l;
      holds = λ k. elim (Option-cases (element l k)) [
        | inl nothing ↦
            held-kept r l k own_r nothing (m.untouched k nothing) m.frame
            ∙ sym (joined-plain l.is_leftmost mem k (element r k) plain_l)
            ∙ sym (ap (λ a. joined l.is_leftmost mem k a (element r k)) nothing)
        | inr (a, is) ↦
            held-merged merge_into_right r.is_leftmost r k a (m.merged k a is)
            ∙ right-outcome l.is_leftmost r.is_leftmost mem k a (element r k) plain_r
                (λ b is_b. hbs k a b is is_b)
            ∙ sym (ap (λ a. joined l.is_leftmost mem k a (element r k)) is)
      ];
      destroyed = λ v.
          let k = owner v in
          m.destroyed v ∙ elim (Option-cases (element l k)) [
            | inl nothing ↦
                ap (λ f. doomed owner merge_into_right r.is_leftmost r f v) nothing
                ∙ sym (buried-plain l.is_leftmost k v (element r k) plain_l)
                ∙ sym (ap (λ a. buried l.is_leftmost k v a (element r k)) nothing)
            | inr (a, is) ↦
                ap (λ f. doomed owner merge_into_right r.is_leftmost r f v) is
                ∙ right-fate l.is_leftmost r.is_leftmost v k a (element r k) plain_r
                ∙ sym (ap (λ a. buried l.is_leftmost k v a (element r k)) is)
          ];
      elsewhere = λ a left right. m.frame a left;
    }

  -- Take two sound maps of which the right one is not the leftmost. Each view belongs to its key, a
  -- leftmost view is its key, and a key that both have is of one hyperobject. Then
  -- `merge_reducer_maps` succeeds and keeps one of them, sound and the leftmost if the left one was.
  -- For each key it has the left map's view, with its value reduced with the right map's; the view and
  -- value of the one map where the other has none; and the leftmost view, reduced, if the left map is
  -- the leftmost and has none yet. The views that are destroyed are those of the right map that were
  -- reduced into another, each once, but no leftmost view. The views of other keys keep their values.
  pub merge_reducer_maps_lem :
      (owner : ℕ → ℕ) (l r : ReducerMap) (mem : ℕ → V)
      → IsMap l
      → IsMap r
      → r.is_leftmost ≡ false
      → Owned owner l
      → Owned owner r
      → ((k : ℕ) (b : Elem) → element r k ≡ some b → l.is_leftmost ≡ true → owner k ≡ k)
      → ((k : ℕ) (a b : Elem) → element l k ≡ some a → element r k ≡ some b → a.hb ≡ b.hb)
      → (h : ReducerMap) × (mem' : ℕ → V) × (gone : List ℕ) × (merge_reducer_maps reduce
            (some l)
            (some r)
            mem
          ≡ ok (some h, mem', gone))
        × Joined owner l r mem h mem' gone
  unfolding merge_reducer_maps
  merge_reducer_maps_lem owner l r mem ml mr plain own_l own_r leftmost hbs =
      elim (Bool-cases (l.is_leftmost || ltb r.nelem l.nelem)) [
        | inl into_left ↦
            let (h, mem', gone, ran, m) =
              merge_map-MapMerged reduce owner merge_into_left l r mem
                (unfold IsOrdered in omega arith) ml mr plain own_l own_r leftmost in
            (
              h,
              mem',
              gone,
              rw (into_left, ran) refl,
              left-Joined owner l r mem h mem' gone own_l own_r m,
            )
        | inr into_right ↦
            let plain_l : l.is_leftmost ≡ false = ground arith in
            let (h, mem', gone, ran, m) =
              merge_map-MapMerged reduce owner merge_into_right r l mem
                (unfold IsOrdered in omega arith) mr ml plain_l own_r own_l
                (λ k o e top. absurd (cc)) in
            (
              h,
              mem',
              gone,
              rw (into_right, ran) refl,
              right-Joined owner l r mem h mem' gone own_l own_r plain_l plain hbs m,
            )
      ]
