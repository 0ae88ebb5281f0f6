-- ===== src/ReducerMap/Merge/Loop.antt =====
-- The rounds of a merge one after the other, over a list of elements with different keys.
use mathlib.Core.Path.{subst}
use cilk_l.Prelude.{
  ℕ, ◌≤◌, ◌<◌, ◌≡◌, ◌≢◌, ◌⊎◌, refl, sym, ap, ◌∙◌, inl, inr, Bool, true, false, not, ◌&&◌, Option,
  none, some, List, [], ◌∷◌, arith, ◌==◌, some-eq, if◌then◌else◌, Bool-cases, Option-cases,
  ℕ_discrete, Outcome, ok, ◌>>=◌,
}
use cilk_l.ReducerMap.{Elem, ReducerMap}
use cilk_l.ReducerMap.Table.{entry, occurs, element, IsMap}
use cilk_l.ReducerMap.Rehash.{AllNonNull}
use cilk_l.ReducerMap.Merge.{
  MergeKind, merge_unordered, merge_into_left, merge_into_right, merge_element, Merged,
}
use cilk_l.ReducerMap.Merge.Round.{
  IsOrdered, partner, leftover, outcome, Round, merge_element-Round,
}

-- Each view belongs to its key, and so does the leftmost view if the merge may make it.
unfoldable pub AllMine : (ℕ → ℕ) → Bool → List Elem → Type 0
AllMine owner tl [] = 0 ≤ 0
AllMine owner tl (o ∷ os) =
    (owner o.view ≡ o.key) × (tl ≡ true → owner o.key ≡ o.key) × AllMine owner tl os

abbrev pub Owned : (ℕ → ℕ) → ReducerMap → Type 0
Owned owner h = (k : ℕ) (a : Elem) → element h k ≡ some a → owner a.view ≡ k

-- What is left of the elements.
unfoldable pub AllLeft : MergeKind → Bool → ReducerMap → List Elem → List Elem → Type 0
AllLeft kind tl h [] [] = 0 ≤ 0
AllLeft kind tl h [] (o' ∷ os') = 1 ≤ 0
AllLeft kind tl h (o ∷ os) [] = 1 ≤ 0
AllLeft kind tl h (o ∷ os) (o' ∷ os') =
    (o'.key ≡ o.key)
    × (o'.view ≡ leftover kind (partner tl (element h o.key) o) o)
    × AllLeft kind tl h os os'

AllLeft-congr :
    (kind : MergeKind) (tl : Bool) (h g : ReducerMap) (os os' : List Elem)
    → ((k : ℕ) → 0 < occurs k os → element g k ≡ element h k)
    → AllLeft kind tl g os os'
    → AllLeft kind tl h os os'
unfolding AllLeft occurs
AllLeft-congr kind tl h g [] [] same l = l
AllLeft-congr kind tl h g [] (o' ∷ os') same l = l
AllLeft-congr kind tl h g (o ∷ os) [] same l = l
AllLeft-congr kind tl h g (o ∷ os) (o' ∷ os') same (key, view, l) = (
  key,
  view ∙ ap (λ a. leftover kind (partner tl a o) o) (same o.key (ground arith)),
  AllLeft-congr kind tl h g os os' (λ k more. same k (omega arith)) l,
)

pub partner-owned :
    (owner : ℕ → ℕ) (tl : Bool) (h : ReducerMap) (o : Elem) (v : ℕ)
    → Owned owner h
    → (tl ≡ true → owner o.key ≡ o.key)
    → partner tl (element h o.key) o ≡ some v
    → owner v ≡ o.key
partner-owned owner tl h o v mine leftmost e = elim (Option-cases (element h o.key)) [
  | inl nothing ↦
      let e' : partner tl none o ≡ some v = ap (λ a. partner tl a o) (sym nothing) ∙ e in
      go (Bool-cases tl) (unfold partner in e')
  | inr (a, is) ↦
      let e' : partner tl (some a) o ≡ some v = ap (λ a. partner tl a o) (sym is) ∙ e in
      let view : a.view ≡ v = unfold partner in some-eq e' in ap owner (sym view) ∙ mine o.key a is
]
  where
    go :
        (tl ≡ true) ⊎ (tl ≡ false)
        → ◌≡◌ {A = Option ℕ} (if tl && not (o.key == o.view) then some o.key else none) (some v)
        → owner v ≡ o.key
    go (inl yes_left) e' =
        let same : o.key ≡ v = ground arith in ap owner (sym same) ∙ leftmost yes_left
    go (inr other) e' = absurd (ground arith)

pub entry-mine :
    (owner : ℕ → ℕ) (tl : Bool) (os : List Elem) (k : ℕ) (x : Elem)
    → AllMine owner tl os
    → entry k os ≡ some x
    → (x.key ≡ k) × (owner x.view ≡ k) × (tl ≡ true → owner k ≡ k)
unfolding AllMine entry
entry-mine owner tl [] k x own e = absurd (cc)
entry-mine owner tl (o ∷ os) k x (view, leftmost, own) e = elim (ℕ_discrete o.key k) [
  | yes same ↦
      let is : o ≡ x = ground arith in
      let key : x.key ≡ k = ap (λ (y : Elem). y.key) (sym is) ∙ same in
      (
        key,
        ap (λ (y : Elem). owner y.view) (sym is) ∙ view ∙ same,
        λ t. ap owner (sym same) ∙ leftmost t ∙ same,
      )
  | no other ↦ entry-mine owner tl os k x own (ground arith)
]

module _ {V : Type 0} (reduce : ℕ → V → V → V) where
  outcome-congr :
      (kind : MergeKind) (mem mem' : ℕ → V) (t : Option ℕ) (o : Elem)
      → mem' o.view ≡ mem o.view
      → ((v : ℕ) → t ≡ some v → mem' v ≡ mem v)
      → outcome reduce kind mem' t o ≡ outcome reduce kind mem t o
  unfolding outcome
  outcome-congr kind mem mem' none o view same = ap (λ x. (o.view, x)) view
  outcome-congr merge_unordered mem mem' (some t) o view same = rw (view, same t refl) refl
  outcome-congr merge_into_left mem mem' (some t) o view same = rw (view, same t refl) refl
  outcome-congr merge_into_right mem mem' (some t) o view same = rw (view, same t refl) refl

  unfoldable pub merge_list :
      MergeKind → Bool → List Elem → ReducerMap → (ℕ → V) → Outcome (Merged reduce (List Elem))
  merge_list kind tl [] h mem = ok (h, mem, [])
  merge_list kind tl (o ∷ os) h mem = merge_element reduce kind tl o h mem >>= λ (h', mem', o').
      merge_list kind tl os h' mem' >>= λ (h'', mem'', os'). ok (h'', mem'', o' ∷ os')

  -- What becomes of the element `o` with key `k`.
  abbrev pub MergedAt :
      MergeKind → Bool → ReducerMap → (ℕ → V) → ReducerMap → (ℕ → V) → Elem → ℕ → Type 0
  MergedAt kind tl h mem h' mem' o k =
      (e : Elem) × (element h' k ≡ some e)
      × (e.view ≡ (outcome reduce kind mem (partner tl (element h k) o) o).0)
      × (mem' e.view ≡ (outcome reduce kind mem (partner tl (element h k) o) o).1)

  -- What a merge of a list does.
  pub record Looped (owner : ℕ → ℕ) (kind : MergeKind) (tl : Bool) (os : List Elem) (h : ReducerMap)
      (mem : ℕ → V) (h' : ReducerMap) (mem' : ℕ → V) (os' : List Elem) : Type 0 where
    pub sound : IsMap h'
    pub is_leftmost : h'.is_leftmost ≡ h.is_leftmost
    pub untouched : (k : ℕ) → occurs k os ≡ 0 → element h' k ≡ element h k
    pub merged : (k : ℕ) (o : Elem) → entry k os ≡ some o → MergedAt kind tl h mem h' mem' o k
    pub frame : (a : ℕ) → occurs (owner a) os ≡ 0 → mem' a ≡ mem a
    pub owned : Owned owner h'
    pub left : AllLeft kind tl h os os'

  -- A round keeps that views belong to their keys.
  Round-Owned :
      (owner : ℕ → ℕ) (kind : MergeKind) (t : Option ℕ) (o : Elem) (h : ReducerMap) (mem : ℕ → V)
      (h' : ReducerMap) (mem' : ℕ → V) (o' : Elem)
      → Owned owner h
      → Round reduce owner kind t o h mem h' mem' o'
      → Owned owner h'
  Round-Owned owner kind t o h mem h' mem' o' mine r k a is = elim (ℕ_discrete o.key k) [
    | yes same ↦
        let is' : element h' o.key ≡ some a = ap (element h') same ∙ is in
        let e : r.elem ≡ a = some-eq (sym r.shown ∙ is') in
        ap (λ (x : Elem). owner x.view) (sym e) ∙ r.owned ∙ same
    | no other ↦ mine k a (sym (r.others k other) ∙ is)
  ]

  module _ (owner : ℕ → ℕ) (kind : MergeKind) (tl : Bool) (o : Elem) (os : List Elem)
      (h : ReducerMap) (mem : ℕ → V) (g : ReducerMap) (mem1 : ℕ → V) (o' : Elem) (h' : ReducerMap)
      (mem' : ℕ → V) (os' : List Elem) (mine : Owned owner h) (own : owner o.view ≡ o.key)
      (leftmost : tl ≡ true → owner o.key ≡ o.key) (owns : AllMine owner tl os)
      (once : (k : ℕ) → occurs k (o ∷ os) ≤ 1)
      (r : Round reduce owner kind (partner tl (element h o.key) o) o h mem g mem1 o')
      (l : Looped owner kind tl os g mem1 h' mem' os') where
    -- The key of the first element is not touched by the others.
    cons-first : occurs o.key os ≡ 0 → MergedAt kind tl h mem h' mem' o o.key
    cons-first nothing = (
      r.elem,
      l.untouched o.key nothing ∙ r.shown,
      r.view,
      l.frame r.elem.view (ap (λ k. occurs k os) r.owned ∙ nothing) ∙ r.value,
    )

    -- The others are merged as if the first had not been.
    cons-rest :
        (k : ℕ) (x : Elem) → o.key ≢ k → entry k os ≡ some x → MergedAt kind tl h mem h' mem' x k
    cons-rest k x other e =
        let (same, own_x, left_x) = entry-mine owner tl os k x owns e in
        let (a, shown, view, value) = l.merged k x e in
        let kept : element g k ≡ element h k = r.others k other in
        let apart : (v : ℕ) → owner v ≡ k → mem1 v ≡ mem v =
          λ v is. r.frame v (λ z. other (sym z ∙ is)) in
        let seen : (v : ℕ) → partner tl (element h k) x ≡ some v → mem1 v ≡ mem v = λ v p. apart v (
          partner-owned owner tl h x v mine (λ t. ap owner same ∙ left_x t ∙ sym same)
            (ap (λ j. partner tl (element h j) x) same ∙ p)
          ∙ same) in
        let agree =
          ap (λ b. outcome reduce kind mem1 (partner tl b x) x) kept
          ∙ outcome-congr kind mem mem1 (partner tl (element h k) x) x (apart x.view own_x) seen in
        (a, shown, view ∙ ap (λ z. z.0) agree, value ∙ ap (λ z. z.1) agree)

    cons-Looped : Looped owner kind tl (o ∷ os) h mem h' mem' (o' ∷ os')
    unfolding occurs entry AllLeft
    cons-Looped = record {
      sound = l.sound;
      is_leftmost = l.is_leftmost ∙ r.is_leftmost;
      untouched =
          λ k nothing. l.untouched k (omega arith) ∙ r.others k (λ same. absurd (ground arith));
      merged = λ k x e. elim (ℕ_discrete o.key k) [
        | yes same ↦
            let x_is : o ≡ x = ground arith in
            let nothing : occurs o.key os ≡ 0 = ground (arith, once o.key) in
            subst (λ j. MergedAt kind tl h mem h' mem' x j) same
              (subst (λ y. MergedAt kind tl h mem h' mem' y o.key) x_is (cons-first nothing))
        | no other ↦ cons-rest k x other (ground arith)
      ];
      frame = λ a nothing. l.frame a (omega arith) ∙ r.frame a (λ same. absurd (ground arith));
      owned = l.owned;
      left = (
        r.same_key,
        r.left,
        AllLeft-congr kind tl h g os os'
            (λ k more. r.others k (λ same. absurd (ground (arith, once k)))) l.left,
      );
    }

  module _ (owner : ℕ → ℕ) (kind : MergeKind) (tl : Bool) (ordered : IsOrdered kind) where
    pub merge_list-Looped :
        (os : List Elem) (h : ReducerMap) (mem : ℕ → V)
        → IsMap h
        → Owned owner h
        → AllNonNull os
        → AllMine owner tl os
        → ((k : ℕ) → occurs k os ≤ 1)
        → (h' : ReducerMap) × (mem' : ℕ → V) × (os' : List Elem) × (merge_list kind tl os h mem
            ≡ ok (h', mem', os'))
          × Looped owner kind tl os h mem h' mem' os'
    unfolding merge_list AllNonNull AllMine occurs entry AllLeft
    merge_list-Looped [] h mem m mine all own once = (
      h,
      mem,
      [],
      refl,
      record {
        sound = m;
        is_leftmost = refl;
        untouched = λ k nothing. refl;
        merged = λ k o e. absurd (cc);
        frame = λ a nothing. refl;
        owned = mine;
        left = omega arith;
      },
    )
    merge_list-Looped (o ∷ os) h mem m mine (key, view, all) (own, leftmost, owns) once =
        let (g, mem1, o', round, r) =
          merge_element-Round reduce owner o mem key view own kind tl h ordered m mine leftmost in
        let (h', mem', os', rest, l) =
          merge_list-Looped os g mem1 r.sound
            (Round-Owned owner kind (partner tl (element h o.key) o) o h mem g mem1 o' mine r) all
            owns (λ k. omega (arith, once k)) in
        (
          h',
          mem',
          o' ∷ os',
          rw (round, rest) refl,
          cons-Looped owner kind tl o os h mem g mem1 o' h' mem' os' mine own leftmost owns once r
              l,
        )
