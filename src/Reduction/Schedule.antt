-- ===== src/Reduction/Schedule.antt =====
-- Every schedule of the returning children ends, and all end with the same map.
use mathlib.Core.Path.{subst}
use cilk_l.Prelude.{
  ℕ, zero, suc, ◌+◌, ◌≤◌, ◌<◌, ◌≡◌, refl, sym, ap, ◌∙◌, ◌≢◌, ◌⊎◌, inl, inr, Option, none, some,
  List, [], ◌∷◌, length, arith, Option-cases, some-eq,
}
use cilk_l.Reduction.{Child, Family, bit, merge, act, step, run}
use cilk_l.Reduction.Order.{serial, product, merge-none, IsLoaded, weight, act-Acted, act_zero}

module _ {M : Type 0} (op : M → M → M) (assoc : (a b c : M) → op (op a b) c ≡ op a (op b c)) where
  -- Maps and children of a family.
  abbrev pub size : Family M → ℕ
  size f = bit f.children_map + weight op assoc f.children

  step-some :
      (k : ℕ) (f : Family M) (q : Option M × List (Child M))
      → act op k f.children_map f.children ≡ some q
      → step op k f ≡ some (record { children_map = q.0; children = q.1 })
  unfolding step
  step-some k f q ran = rw (ran, step)

  step-ne-none :
      (f : Family M) (c : Child M) (cs : List (Child M)) → f.children ≡ c ∷ cs → step op 0 f ≢ none
  unfolding step
  step-ne-none f c cs e stuck =
      act_zero op assoc f.children_map c cs
        (subst (λ l. act op 0 f.children_map l ≡ none) e (ground arith))

  run-cons :
      (k : ℕ) (ks : List ℕ) (f h : Family M)
      → step op k f ≡ some h
      → run op (k ∷ ks) f ≡ run op ks h
  unfolding run
  run-cons k ks f h ran = rw (ran, run)

  pub record Stepped (f g : Family M) : Type 0 where
    pub same : product op g ≡ product op f
    pub loaded : IsLoaded op assoc g.children
    pub smaller : size g < size f

  pub step-Stepped :
      (k : ℕ) {f g : Family M} → IsLoaded op assoc f.children → step op k f ≡ some g → Stepped f g
  unfolding step
  step-Stepped k {f} {g} v e = elim (Option-cases (act op k f.children_map f.children)) [
    | inl stuck ↦ absurd (ground arith)
    | inr (q, ran) ↦
        let a = act-Acted op assoc k f.children_map f.children v ran in
        subst (Stepped f) (some-eq (sym (step-some k f q ran) ∙ e))
          (record { same = a.same; loaded = a.loaded; smaller = a.lighter })
  ]

  record Ran (ks : List ℕ) (f g : Family M) : Type 0 where
    same : product op g ≡ product op f
    loaded : IsLoaded op assoc g.children
    smaller : size g + length ks ≤ size f

  run-Ran :
      (ks : List ℕ) {f g : Family M}
      → IsLoaded op assoc f.children
      → run op ks f ≡ some g
      → Ran ks f g
  unfolding run
  run-Ran [] {f} v e =
      subst (Ran [] f) (some-eq e) (record { same = refl; loaded = v; smaller = omega arith })
  run-Ran (k ∷ ks) {f} {g} v e = elim (Option-cases (step op k f)) [
    | inl stuck ↦ absurd (ground arith)
    | inr (h, ran) ↦
        let a = step-Stepped k v ran in
        let b = run-Ran ks {f = h} {g = g} a.loaded (sym (run-cons k ks f h ran) ∙ e) in
        record {
          same = b.same ∙ a.same;
          loaded = b.loaded;
          smaller = omega (arith, a.smaller, b.smaller);
        }
  ]

  first_step : (f : Family M) → (f.children ≡ []) ⊎ ((g : Family M) × (step op 0 f ≡ some g))
  first_step f = go f.children refl
    where
      go :
          (cs : List (Child M))
          → f.children ≡ cs
          → (f.children ≡ []) ⊎ ((g : Family M) × (step op 0 f ≡ some g))
      go [] e = inl e
      go (c ∷ cs) e = elim (Option-cases (step op 0 f)) [
        | inl stuck ↦ absurd (step-ne-none f c cs e stuck)
        | inr ran ↦ inr ran
      ]

  -- Letting the first child act, over and over, brings any family to an end.
  first_to_end :
      (n : ℕ) (f : Family M)
      → size f ≤ n
      → IsLoaded op assoc f.children
      → (ks : List ℕ) × (g : Family M) × (run op ks f ≡ some g) × (g.children ≡ [])
  unfolding run
  first_to_end zero f le v = elim (first_step f) [
    | inl done ↦ ([], f, refl, done)
    | inr (g, ran) ↦ absurd (omega (arith, (step-Stepped 0 {f = f} {g = g} v ran).smaller))
  ]
  first_to_end (suc n) f le v = elim (first_step f) [
    | inl done ↦ ([], f, refl, done)
    | inr (g, ran) ↦
        let a = step-Stepped 0 {f = f} {g = g} v ran in
        let (ks, h, rest, done) = first_to_end n g (omega (arith, a.smaller)) a.loaded in
        (0 ∷ ks, h, run-cons 0 ks f g ran ∙ rest, done)
  ]

  -- If merging is associative, whatever order the returning children of a stolen frame act in, and
  -- wherever one drops its parent's lock to merge, while every child that is inside the slow path has a
  -- map in its worker: a schedule has no more rounds than there are maps and children, some schedule
  -- returns all of them, and every schedule that does leaves in the parent's `children_reducer_map`
  -- all the maps merged in serial order.
  pub reductions_deterministic :
      (f : Family M)
      → IsLoaded op assoc f.children
      → ((ks : List ℕ) (g : Family M) → run op ks f ≡ some g → length ks ≤ size f)
        × ((ks : List ℕ) × (g : Family M) × (run op ks f ≡ some g) × (g.children ≡ []))
        × ((ks : List ℕ) (g : Family M)
            → run op ks f ≡ some g
            → g.children ≡ []
            → g.children_map ≡ product op f)
  reductions_deterministic f v = (
    (λ ks g e. omega (arith, (run-Ran ks v e).smaller)),
    first_to_end (size f) f (omega arith) v,
    λ ks g e done.
        sym (merge-none op assoc g.children_map)
        ∙ ap (λ cs. merge op g.children_map (serial op cs)) (sym done)
        ∙ (run-Ran ks v e).same,
  )
