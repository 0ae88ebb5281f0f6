-- ===== src/Reduction/Sync.antt =====
-- A parent that stalls at a sync, among its returning children: `slow_path_reductions_for_sync` of
-- cilk-l/runtime/scheduler.c keeps the serial order too.
use mathlib.Core.Path.{subst}
use cilk_l.Prelude.{
  map, ◌++◌, ℕ, ◌+◌, ◌≤◌, ◌<◌, ◌≡◌, refl, sym, ap, ◌∙◌, inl, inr, Bool, true, false, not, Option,
  none, some, List, [], ◌∷◌, length, arith, Option-cases, Bool-cases, some-eq, if◌then◌else◌,
}
use cilk_l.Reduction.{
  Child, Family, bit, merge, step, run, sync_round, sync_act, Stalled, Actor, child, parent,
  sync_step, sync_run,
}
use cilk_l.Reduction.Order.{serial, product, merge-none, merge_assoc, IsLoaded, weight}
use cilk_l.Reduction.Schedule.{size, step-Stepped, reductions_deterministic}

module _ {M : Type 0} (op : M → M → M) (assoc : (a b c : M) → op (op a b) c ≡ op a (op b c)) where
  -- What one round of the parent keeps.
  record Synced (left own : Option M) (cs : List (Child M)) (l m : Option M) (cs' : List (Child M))
      (finished : Bool) : Type 0 where
    same : merge op l (merge op (serial op cs') m) ≡ merge op left (merge op (serial op cs) own)
    loaded : IsLoaded op assoc cs → IsLoaded op assoc cs'
    cleared : finished ≡ true → m ≡ none
    smaller :
        bit l + weight op assoc cs' + bit m + (if finished then 0 else 1)
        < bit left + weight op assoc cs + bit own + 1

  sync_round-Synced :
      (left own : Option M)
      → (let (l, m, finished) = sync_round op left own in Synced left own [] l m [] finished)
  unfolding sync_round merge
  sync_round-Synced none none = record {
    same = refl;
    loaded = λ h. h;
    cleared = λ e. refl;
    smaller = omega arith;
  }
  sync_round-Synced none (some m) = record {
    same = refl;
    loaded = λ h. h;
    cleared = λ e. refl;
    smaller = omega arith;
  }
  sync_round-Synced (some l) none = record {
    same = refl;
    loaded = λ h. h;
    cleared = λ e. refl;
    smaller = omega arith;
  }
  sync_round-Synced (some l) (some m) = record {
    same = refl;
    loaded = λ h. h;
    cleared = λ e. cc;
    smaller = omega arith;
  }

  regroup :
      (a b c d : Option M)
      → merge op (merge op a (merge op b c)) d ≡ merge op a (merge op b (merge op c d))
  regroup a b c d =
      merge_assoc op assoc a (merge op b c) d ∙ ap (λ x. merge op a x) (merge_assoc op assoc b c d)

  sync_act-Synced :
      (left : Option M) (cs : List (Child M)) (own : Option M)
      → (let (l, cs', m, finished) = sync_act op left cs own in Synced left own cs l m cs' finished)
  unfolding sync_act
  sync_act-Synced left [] own = sync_round-Synced left own
  sync_act-Synced left (c ∷ cs) own =
      let a = sync_act-Synced c.right cs own in
      record {
        same =
            ap (λ x. merge op left x)
              (regroup c.map _ _ _
                ∙ (ap (λ x. merge op c.map x) a.same ∙ sym (regroup c.map _ _ _)));
        loaded = λ (h, h'). (h, a.loaded h');
        cleared = a.cleared;
        smaller = omega (arith, a.smaller);
      }

  -- All the maps of the children and of the parent in serial order, merged.
  abbrev pub sync_product : Stalled M → Option M
  sync_product s = merge op s.family.children_map (merge op (serial op s.family.children) s.own)

  -- Maps, children, and the parent if it is still in the loop.
  abbrev pub sync_size : Stalled M → ℕ
  sync_size s = size op assoc s.family + bit s.own + (if s.stalled then 1 else 0)

  -- The parent has no map of its own once it has left the loop.
  abbrev pub IsWaiting : Stalled M → Type 0
  IsWaiting s = IsLoaded op assoc s.family.children × (s.stalled ≡ false → s.own ≡ none)

  child-step :
      (k : ℕ) (s : Stalled M) (f : Family M)
      → step op k s.family ≡ some f
      → sync_step op (child k) s ≡ some (record s { family = f })
  unfolding sync_step
  child-step k s f ran = rw (ran, sync_step)

  -- The parent's round.
  abbrev round : Stalled M → Stalled M
  round s =
      let (l, cs, m, finished) = sync_act op s.family.children_map s.family.children s.own in
      record {
        family = record { children_map = l; children = cs };
        own = m;
        stalled = not finished;
      }

  parent-step : (s : Stalled M) → s.stalled ≡ true → sync_step op parent s ≡ some (round s)
  unfolding sync_step
  parent-step s here = rw (here, sync_step)

  regain :
      (s : Stalled M) (f : Family M)
      → product op f ≡ product op s.family
      → sync_product (record s { family = f }) ≡ sync_product s
  regain s f e =
      sym (merge_assoc op assoc f.children_map (serial op f.children) s.own)
      ∙ (ap (λ x. merge op x s.own) e
          ∙ merge_assoc op assoc s.family.children_map (serial op s.family.children) s.own)

  record SyncStepped (s t : Stalled M) : Type 0 where
    same : sync_product t ≡ sync_product s
    waits : IsWaiting t
    smaller : sync_size t < sync_size s

  sync_step-SyncStepped :
      (a : Actor) (s t : Stalled M) → IsWaiting s → sync_step op a s ≡ some t → SyncStepped s t
  unfolding sync_step
  sync_step-SyncStepped (child k) s t (v, w) e = elim (Option-cases (step op k s.family)) [
    | inl stuck ↦ absurd (ground arith)
    | inr (f, ran) ↦
        let a = step-Stepped op assoc k {f = s.family} {g = f} v ran in
        subst (SyncStepped s) (some-eq (sym (child-step k s f ran) ∙ e)) (record {
          same = regain s f a.same;
          waits = (a.loaded, w);
          smaller = omega (arith, a.smaller);
        })
  ]
  sync_step-SyncStepped parent s t (v, w) e =
      let a = sync_act-Synced s.family.children_map s.family.children s.own in
      elim (Bool-cases s.stalled) [
        | inr gone ↦ absurd (ground (arith, gone, e))
        | inl here ↦ subst (SyncStepped s) (some-eq (sym (parent-step s here) ∙ e)) (record {
          same = a.same;
          waits = (a.loaded v, λ h. a.cleared (ground (arith, h)));
          smaller = (let less = a.smaller in ground (arith, less, here));
        })
      ]

  record SyncRan (rest : List Actor) (s t : Stalled M) : Type 0 where
    same : sync_product t ≡ sync_product s
    waits : IsWaiting t
    smaller : sync_size t + length rest ≤ sync_size s

  sync_run-SyncRan :
      (rest : List Actor) (s t : Stalled M)
      → IsWaiting s
      → sync_run op rest s ≡ some t
      → SyncRan rest s t
  unfolding sync_run
  sync_run-SyncRan [] s t v e =
      subst (SyncRan [] s) (some-eq e) (record { same = refl; waits = v; smaller = omega arith })
  sync_run-SyncRan (a ∷ rest) s t v e = elim (Option-cases (sync_step op a s)) [
    | inl stuck ↦ absurd (ground (arith, stuck, e))
    | inr (u, ran) ↦
        let d = sync_step-SyncStepped a s u v ran in
        let r = sync_run-SyncRan rest u t d.waits (ground (arith, ran, e)) in
        record {
          same = r.same ∙ d.same;
          waits = r.waits;
          smaller = omega (arith, d.smaller, r.smaller);
        }
  ]

  sync_run-cons :
      (a : Actor) (rest : List Actor) (s t : Stalled M)
      → sync_step op a s ≡ some t
      → sync_run op (a ∷ rest) s ≡ sync_run op rest t
  unfolding sync_run
  sync_run-cons a rest s t ran = rw (ran, sync_run)

  -- Children act as they do without a parent at a sync.
  children_only :
      (ks : List ℕ) (f g : Family M) (own : Option M) (rest : List Actor)
      → run op ks f ≡ some g
      → sync_run op (map child ks ++ rest) (record { family = f; own = own; stalled = true })
        ≡ sync_run op rest (record { family = g; own = own; stalled = true })
  unfolding run sync_run
  children_only [] f g own rest e =
      ap (λ h. sync_run op rest (record { family = h; own = own; stalled = true })) (some-eq e)
  children_only (k ∷ ks) f g own rest e = elim (Option-cases (step op k f)) [
    | inl stuck ↦ absurd (ground (arith, stuck, e))
    | inr (h, ran) ↦
        let first = child-step k (record { family = f; own = own; stalled = true }) h ran in
        sync_run-cons (child k) (map child ks ++ rest) _ _ first
        ∙ children_only ks h g own rest (ground (arith, ran, e))
  ]

  -- A parent without children leaves the loop after two rounds at most.
  alone :
      (left own : Option M)
      → (rest : List Actor) × (l : Option M) × (sync_run op rest (record {
        family = record { children_map = left; children = [] };
        own = own;
        stalled = true;
      })
          ≡ some (record {
            family = record { children_map = l; children = [] };
            own = none;
            stalled = false;
          }))
  unfolding sync_run sync_step sync_act sync_round merge
  alone none own = (parent ∷ [], own, refl)
  alone (some l) none = (parent ∷ [], some l, refl)
  alone (some l) (some m) = (parent ∷ parent ∷ [], some (op l m), refl)

  sync_end :
      (s : Stalled M)
      → IsLoaded op assoc s.family.children
      → s.stalled ≡ true
      → (rest : List Actor) × (t : Stalled M) × (sync_run op rest s ≡ some t)
        × (t.family.children ≡ [])
        × (t.stalled ≡ false)
  sync_end s v here =
      let (_, (ks, g, ran, done), _) = reductions_deterministic op assoc s.family v in
      let (rest, l, e) = alone g.children_map s.own in
      (
        map child ks ++ rest,
        record { family = record { children_map = l; children = [] }; own = none; stalled = false },
        ap
              (λ b.
                sync_run op (map child ks ++ rest)
                  (record { family = s.family; own = s.own; stalled = b }))
              here
            ∙ (children_only ks s.family g s.own rest ran
                ∙ (ap
                      (λ cs. sync_run op rest (record {
                        family = record { children_map = g.children_map; children = cs };
                        own = s.own;
                        stalled = true;
                      }))
                      done
                    ∙ e)),
        refl,
        refl,
      )

  -- If merging is associative, a parent stalls at a sync while its children return, and each child that
  -- is inside the slow path has a map in its worker: no schedule of the children and the parent has more
  -- rounds than there are maps, children and parent. Some schedule returns all the children and lets the
  -- parent leave the loop. Every schedule that does leaves in the parent's `children_reducer_map` all
  -- the maps merged in serial order, the parent's own the last.
  pub sync_deterministic :
      (s : Stalled M)
      → IsLoaded op assoc s.family.children
      → s.stalled ≡ true
      → ((rest : List Actor) (t : Stalled M)
          → sync_run op rest s ≡ some t
          → length rest ≤ sync_size s)
        × ((rest : List Actor) × (t : Stalled M) × (sync_run op rest s ≡ some t)
            × (t.family.children ≡ [])
            × (t.stalled ≡ false))
        × ((rest : List Actor) (t : Stalled M)
            → sync_run op rest s ≡ some t
            → t.family.children ≡ []
            → t.stalled ≡ false
            → t.family.children_map ≡ merge op (product op s.family) s.own)
  unfolding merge
  sync_deterministic s v here =
      let w : IsWaiting s = (v, λ gone. absurd (ground (arith, here, gone))) in
      (
        λ rest t e. omega (arith, (sync_run-SyncRan rest s t w e).smaller),
        sync_end s v here,
        λ rest t e done left.
            let r = sync_run-SyncRan rest s t w e in
            sym (
              ap (λ x. merge op t.family.children_map (merge op (serial op t.family.children) x))
                (r.waits.1 left)
              ∙ (ap (λ cs. merge op t.family.children_map (merge op (serial op cs) none)) done
                  ∙ merge-none op assoc t.family.children_map))
            ∙ (r.same
                ∙ sym (
                    merge_assoc op assoc s.family.children_map (serial op s.family.children)
                      s.own)),
      )
