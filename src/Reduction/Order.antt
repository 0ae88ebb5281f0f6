-- ===== src/Reduction/Order.antt =====
-- The reducer protocol keeps the serial order: no map changes its place, whoever acts and when.
use mathlib.Core.Path.{subst, subst₂}
use cilk_l.Prelude.{
  some-eq, ◌≢◌, if◌then◌else◌, ℕ, zero, suc, ◌+◌, ◌≤◌, ◌<◌, ◌≡◌, refl, sym, ap, ◌∙◌, inl, inr, Bool,
  true, false, Option, none, some, List, [], ◌∷◌, arith, Option-cases,
}
use cilk_l.Reduction.{
  Slots, slots, bit, Child, Family, merge, fast_path_reductions_for_spawn_return, slow_path_round,
  locked_section, act,
}

module _ {M : Type 0} (op : M → M → M) where
  -- The maps of the children in serial order, merged.
  abbrev pub serial : List (Child M) → Option M
  serial [] = none
  serial (c ∷ cs) = merge op c.map (merge op c.right (serial cs))

  -- All maps of a family in serial order, merged.
  abbrev pub product : Family M → Option M
  product f = merge op f.children_map (serial f.children)

module _ {M : Type 0} (op : M → M → M) (assoc : (a b c : M) → op (op a b) c ≡ op a (op b c)) where
  pub merge-none : (a : Option M) → merge op a none ≡ a
  unfolding merge
  merge-none none = refl
  merge-none (some a) = refl

  pub merge_assoc : (a b c : Option M) → merge op (merge op a b) c ≡ merge op a (merge op b c)
  unfolding merge
  merge_assoc none b c = refl
  merge_assoc (some a) none c = refl
  merge_assoc (some a) (some b) none = refl
  merge_assoc (some a) (some b) (some c) = ap some (assoc a b c)

  abbrev whole : Slots M → Option M
  whole s = merge op s.left (merge op s.middle s.right)

  bit-le : (a : Option M) → bit a ≤ 1
  bit-le none = omega arith
  bit-le (some a) = omega arith

  -- What a locked section keeps.
  record Keeps (s : Slots M) (r : Slots M × Bool) : Type 0 where
    same : whole r.0 ≡ whole s
    cleared : r.1 ≡ true → (r.0.middle ≡ none) × (r.0.right ≡ none)
    fewer :
        r.1 ≡ false
        → bit r.0.left + bit r.0.middle + bit r.0.right < bit s.left + bit s.middle + bit s.right
    loaded : r.1 ≡ false → bit r.0.middle ≡ 1
    no_more :
        bit r.0.left + bit r.0.middle + bit r.0.right ≤ bit s.left + bit s.middle + bit s.right

  slow_path_round-Keeps :
      (l m r : Option M)
      → bit r ≤ bit l + bit m
      → Keeps (slots l m r) (slow_path_round op (slots l m r))
  unfolding slow_path_round merge
  slow_path_round-Keeps none none none h = record {
    same = refl;
    cleared = λ e. (refl, refl);
    fewer = λ e. cc;
    loaded = λ e. cc;
    no_more = omega arith;
  }
  slow_path_round-Keeps none none (some r) h = absurd (omega arith)
  slow_path_round-Keeps none (some m) none h = record {
    same = refl;
    cleared = λ e. (refl, refl);
    fewer = λ e. cc;
    loaded = λ e. cc;
    no_more = omega arith;
  }
  slow_path_round-Keeps none (some m) (some r) h = record {
    same = refl;
    cleared = λ e. cc;
    fewer = λ e. omega arith;
    loaded = λ e. refl;
    no_more = omega arith;
  }
  slow_path_round-Keeps (some l) none none h = record {
    same = refl;
    cleared = λ e. (refl, refl);
    fewer = λ e. cc;
    loaded = λ e. cc;
    no_more = omega arith;
  }
  slow_path_round-Keeps (some l) none (some r) h = record {
    same = refl;
    cleared = λ e. cc;
    fewer = λ e. omega arith;
    loaded = λ e. refl;
    no_more = omega arith;
  }
  slow_path_round-Keeps (some l) (some m) none h = record {
    same = refl;
    cleared = λ e. cc;
    fewer = λ e. omega arith;
    loaded = λ e. refl;
    no_more = omega arith;
  }
  slow_path_round-Keeps (some l) (some m) (some r) h = record {
    same = ap some (assoc l m r);
    cleared = λ e. cc;
    fewer = λ e. omega arith;
    loaded = λ e. refl;
    no_more = omega arith;
  }

  -- A locked section keeps the maps in order, clears the child's own maps when it ends the child's
  -- work, and otherwise leaves fewer maps and one in the worker.
  fast_path-Keeps : (l m r : Option M) → Keeps (slots l m r) (locked_section op false (slots l m r))
  unfolding locked_section fast_path_reductions_for_spawn_return merge
  fast_path-Keeps none none none = record {
    same = refl;
    cleared = λ e. (refl, refl);
    fewer = λ e. cc;
    loaded = λ e. cc;
    no_more = omega arith;
  }
  fast_path-Keeps none none (some r) = record {
    same = refl;
    cleared = λ e. (refl, refl);
    fewer = λ e. cc;
    loaded = λ e. cc;
    no_more = omega arith;
  }
  fast_path-Keeps none (some m) none = record {
    same = refl;
    cleared = λ e. (refl, refl);
    fewer = λ e. cc;
    loaded = λ e. cc;
    no_more = omega arith;
  }
  fast_path-Keeps none (some m) (some r) =
      slow_path_round-Keeps none (some m) (some r) (omega arith)
  fast_path-Keeps (some l) none none = record {
    same = refl;
    cleared = λ e. (refl, refl);
    fewer = λ e. cc;
    loaded = λ e. cc;
    no_more = omega arith;
  }
  fast_path-Keeps (some l) none (some r) =
      slow_path_round-Keeps (some l) none (some r) (omega arith)
  fast_path-Keeps (some l) (some m) none =
      slow_path_round-Keeps (some l) (some m) none (omega arith)
  fast_path-Keeps (some l) (some m) (some r) =
      slow_path_round-Keeps (some l) (some m) (some r) (omega arith)

  locked_section-Keeps :
      (merging : Bool) (l m r : Option M)
      → (merging ≡ true → bit m ≡ 1)
      → Keeps (slots l m r) (locked_section op merging (slots l m r))
  unfolding locked_section
  locked_section-Keeps true l m r h = slow_path_round-Keeps l m r (omega (arith, bit-le r, h refl))
  locked_section-Keeps false l m r h = fast_path-Keeps l m r

  -- A child that is inside the slow path has a map in its worker.
  abbrev pub IsLoaded : List (Child M) → Type 0
  IsLoaded [] = Unit {0}
  IsLoaded (c ∷ cs) = (c.merging ≡ true → bit c.map ≡ 1) × IsLoaded cs

  -- Maps and children that there are.
  abbrev pub weight : List (Child M) → ℕ
  weight [] = 0
  weight (c ∷ cs) = 1 + bit c.map + bit c.right + weight cs

  pub record Acted (left : Option M) (cs : List (Child M)) (r : Option M × List (Child M))
      : Type 0 where
    pub same : merge op r.0 (serial op r.1) ≡ merge op left (serial op cs)
    pub loaded : IsLoaded r.1
    pub lighter : bit r.0 + weight r.1 < bit left + weight cs

  spread :
      (l m r t : Option M)
      → merge op l (merge op m (merge op r t)) ≡ merge op (whole (slots l m r)) t
  spread l m r t =
      ap (λ x. merge op l x) (sym (merge_assoc m r t)) ∙ sym (merge_assoc l (merge op m r) t)

  locked_section-Acted :
      (left : Option M) (c : Child M) (cs : List (Child M)) (s : Slots M) (finished : Bool)
      → Keeps (slots left c.map c.right) (s, finished)
      → IsLoaded cs
      → Acted left (c ∷ cs) (
        s.left,
        (if finished
            then cs
            else (record { map = s.middle; right = s.right; merging = true } ∷ cs)),
      )
  unfolding merge
  locked_section-Acted left c cs s true k v = record {
    same =
        subst₂
          (λ x y.
            merge op s.left (merge op x (merge op y (serial op cs)))
            ≡ merge op left (serial op (c ∷ cs)))
          (k.cleared refl).0 (k.cleared refl).1 both;
    loaded = v;
    lighter = omega (arith, k.no_more);
  }
    where
      both :
          merge op s.left (merge op s.middle (merge op s.right (serial op cs)))
          ≡ merge op left (serial op (c ∷ cs))
      both =
          spread s.left s.middle s.right (serial op cs)
          ∙ ap (λ x. merge op x (serial op cs)) k.same
          ∙ sym (spread left c.map c.right (serial op cs))
  locked_section-Acted left c cs s false k v = record {
    same =
        spread s.left s.middle s.right (serial op cs)
        ∙ ap (λ x. merge op x (serial op cs)) k.same
        ∙ sym (spread left c.map c.right (serial op cs));
    loaded = ((λ e. k.loaded refl), v);
    lighter = omega (arith, k.fewer refl);
  }

  act-suc :
      (k : ℕ) (left : Option M) (c : Child M) (cs : List (Child M)) (q : Option M × List (Child M))
      → act op k c.right cs ≡ some q
      → act op (suc k) left (c ∷ cs) ≡ some (left, record c { right = q.0 } ∷ q.1)
  unfolding act
  act-suc k left c cs q ran = rw (ran, act)

  pub act-Acted :
      (k : ℕ) (left : Option M) (cs : List (Child M)) {r : Option M × List (Child M)}
      → IsLoaded cs
      → act op k left cs ≡ some r
      → Acted left cs r
  unfolding act
  act-Acted k left [] v e = absurd (ground arith)
  act-Acted zero left (c ∷ cs) {r} v e = subst (Acted left (c ∷ cs)) (some-eq e) (
      locked_section-Acted left c cs (locked_section op c.merging (slots left c.map c.right)).0
        (locked_section op c.merging (slots left c.map c.right)).1
        (locked_section-Keeps c.merging left c.map c.right v.0) v.1)
  act-Acted (suc k) left (c ∷ cs) {r} v e = elim (Option-cases (act op k c.right cs)) [
    | inl stuck ↦ absurd (ground arith)
    | inr (q, ran) ↦
        let a = act-Acted k c.right cs v.1 ran in
        subst (Acted left (c ∷ cs)) (some-eq (sym (act-suc k left c cs q ran) ∙ e)) (record {
          same = ap (λ t. merge op left (merge op c.map t)) a.same;
          loaded = (v.0, a.loaded);
          lighter = omega (arith, a.lighter);
        })
  ]

  -- The first child that acts can do so, so a family with children is never stuck.
  pub act_zero :
      (left : Option M) (c : Child M) (cs : List (Child M)) → act op 0 left (c ∷ cs) ≢ none
  unfolding act
  act_zero left c cs = ground arith
