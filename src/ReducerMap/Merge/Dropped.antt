-- ===== src/ReducerMap/Merge/Dropped.antt =====
-- Which views a merge destroys: each at most once, and none that stays.
use cilk_l.Prelude.{
  ℕ, ◌+◌, ◌≤◌, ◌≡◌, ◌≢◌, refl, sym, ap, ap₂, ◌∙◌, Bool, true, Option, none, some, List, [], ◌∷◌,
  arith, ne→false, ◌==◌, ==_iff, if◌then◌else◌, ℕ_discrete, count, count-append,
}
use cilk_l.ReducerMap.{Elem, ReducerMap}
use cilk_l.ReducerMap.Table.{entry, occurs, element, entry-none}
use cilk_l.ReducerMap.Rehash.{AllNonNull}
use cilk_l.ReducerMap.Merge.{MergeKind, merge_unordered, merge_into_left, merge_into_right, destroy}
use cilk_l.ReducerMap.Merge.Round.{partner, leftover}
use cilk_l.ReducerMap.Merge.Loop.{AllMine, Owned, AllLeft, partner-owned}
use cilk_l.ReducerMap.Merge.Arrays.{dropped, AllKeys}

pub AllLeft-AllKeys :
    (kind : MergeKind) (tl : Bool) (h : ReducerMap) (os os' : List Elem)
    → AllNonNull os
    → AllLeft kind tl h os os'
    → AllKeys os'
unfolding AllLeft AllNonNull AllKeys
AllLeft-AllKeys kind tl h [] [] all l = omega arith
AllLeft-AllKeys kind tl h [] (o' ∷ os') all l = absurd (omega arith)
AllLeft-AllKeys kind tl h (o ∷ os) [] all l = absurd (omega arith)
AllLeft-AllKeys kind tl h (o ∷ os) (o' ∷ os') (key, view, all) (same, left, l) =
    ((λ z. key (sym same ∙ z)), AllLeft-AllKeys kind tl h os os' all l)

-- What is left in an element belongs to its key.
leftover-owned :
    (owner : ℕ → ℕ) (kind : MergeKind) (tl : Bool) (h : ReducerMap) (o : Elem) (w : ℕ)
    → Owned owner h
    → owner o.view ≡ o.key
    → (tl ≡ true → owner o.key ≡ o.key)
    → w ≡ leftover kind (partner tl (element h o.key) o) o
    → w ≢ 0
    → owner w ≡ o.key
leftover-owned owner kind tl h o w mine own leftmost e nz =
    go kind (partner tl (element h o.key) o) (λ v is. partner-owned owner tl h o v mine leftmost is)
      e
  where
    go :
        (kind : MergeKind) (t : Option ℕ)
        → ((v : ℕ) → t ≡ some v → owner v ≡ o.key)
        → w ≡ leftover kind t o
        → owner w ≡ o.key
    go kind none belongs e = absurd (nz (unfold leftover in e))
    go merge_unordered (some t) belongs e = unfold leftover in ap owner e ∙ own
    go merge_into_left (some t) belongs e = unfold leftover in ap owner e ∙ own
    go merge_into_right (some t) belongs e = unfold leftover in ap owner e ∙ belongs t refl

-- How often a view is destroyed with an element that is left.
abbrev pub fate : ℕ → ℕ → ℕ → ℕ
fate v key w = if w == 0 then 0 else (if key == w then 0 else (if v == w then 1 else 0))

abbrev pub doomed : (ℕ → ℕ) → MergeKind → Bool → ReducerMap → Option Elem → ℕ → ℕ
doomed owner kind tl h found v = elim found [
  | none ↦ 0
  | some o ↦ fate v (owner v) (leftover kind (partner tl (element h (owner v)) o) o)
]

count-destroy :
    (v : ℕ) (o : Elem) → count v (if o.view == 0 then [] else destroy o) ≡ fate v o.key o.view
count-destroy v o = ground arith

-- A view of another key is not destroyed with it.
fate-zero : (owner : ℕ → ℕ) (v key w k : ℕ) → (w ≢ 0 → owner w ≡ k) → owner v ≢ k → fate v key w ≡ 0
fate-zero owner v key w k belongs other = elim (ℕ_discrete w 0) [
  | yes z ↦ ground arith
  | no nz ↦ let ne : v ≢ w = λ is. other (ap owner is ∙ belongs nz) in ground arith
]

module _ (owner : ℕ → ℕ) (kind : MergeKind) (tl : Bool) (h : ReducerMap)
    (mine : Owned owner h) where
  pub count-dropped :
      (os os' : List Elem) (v : ℕ)
      → AllMine owner tl os
      → ((k : ℕ) → occurs k os ≤ 1)
      → AllLeft kind tl h os os'
      → count v (dropped os') ≡ doomed owner kind tl h (entry (owner v) os) v
  unfolding dropped AllMine AllLeft occurs entry
  count-dropped [] [] v own once l = refl
  count-dropped [] (o' ∷ os') v own once l = absurd (omega arith)
  count-dropped (o ∷ os) [] v own once l = absurd (omega arith)
  count-dropped (o ∷ os) (o' ∷ os') v (view, leftmost, own) once (key, left, l) =
      let ih = count-dropped os os' v own (λ k. omega (arith, once k)) l in
      let here =
        count-append v (if o'.view == 0 then [] else destroy o') (dropped os')
        ∙ ap (λ c. c + count v (dropped os')) (count-destroy v o') in
      elim (ℕ_discrete o.key (owner v)) [
        | yes same ↦
            let nothing = entry-none (owner v) os (ground (arith, once (owner v))) in
            let zero_more : count v (dropped os') ≡ 0 =
              ih ∙ ap (λ f. doomed owner kind tl h f v) nothing in
            let first : entry (owner v) (o ∷ os) ≡ some o =
              rw ((==_iff o.key (owner v)).1 same) refl in
            let same_fate : fate v o'.key o'.view
                ≡ fate v (owner v) (leftover kind (partner tl (element h (owner v)) o) o) =
              ap₂ (fate v) (key ∙ same)
                (left ∙ ap (λ k. leftover kind (partner tl (element h k) o) o) same) in
            here
            ∙ ap (λ c. fate v o'.key o'.view + c) zero_more
            ∙ omega arith
            ∙ same_fate
            ∙ sym (ap (λ f. doomed owner kind tl h f v) first)
        | no other ↦
            let rest : entry (owner v) (o ∷ os) ≡ entry (owner v) os =
              rw (ne→false o.key (owner v) other) refl in
            let spared =
              fate-zero owner v o'.key o'.view o.key
                (leftover-owned owner kind tl h o o'.view mine view leftmost left)
                (λ e. other (sym e)) in
            here
            ∙ ap (λ c. c + count v (dropped os')) spared
            ∙ omega arith
            ∙ ih
            ∙ sym (ap (λ f. doomed owner kind tl h f v) rest)
      ]
