-- ===== src/DequePool/Remove.antt =====
-- `deque_pool_remove` of cilk-l/runtime/deque_pool.c: the last deque takes the place of the one that
-- leaves.
use mathlib.Core.List.{Perm}
use mathlib.Core.Path.{subst}
use cilk_l.Prelude.{
  ℕ, suc, ◌-◌, ◌<◌, ◌≡◌, ◌≢◌, true, none, some, ◌∷◌, arith, update, window, ℕ_discrete, Option, ok,
}
use cilk_l.DequePool.{at, invalid, Item, State, Env, deque_pool_remove, all_set}
use cilk_l.DequePool.Bag.{contents, Entry, IsValid, all_set_of, validate-ok, window-swap_remove}

module _ (env : Env) (w o : ℕ) (s : State) (locked : env.lock_owner w ≡ some o)
    (valid : IsValid w s) (i d : ℕ) (lt : i < s.pool.size) (here : Entry w s i d) where
  abbrev last : ℕ
  last = s.pool.size - 1

  -- What stands in the last cell.
  module _ (moved : ℕ) (there : Entry w s last moved) where
    abbrev array : ℕ → Option ℕ
    array = update (update s.pool.array i (s.pool.array last)) last none

    abbrev shifted : ℕ → Item
    shifted = update s.items moved (record (s.items moved) { self = at i })

    abbrev removed : State
    removed = record {
      pool = record s.pool { array = array; size = last };
      items = update shifted d (record (shifted d) { self = invalid; worker = none });
    }

    -- The cells below the last one, and the deques in them: the moved one at `i`, the others as before.
    removed-entry : (j : ℕ) → j < last → (e : ℕ) × Entry w removed j e
    removed-entry j below = elim (ℕ_discrete j i) [
      | yes e ↦ (
        moved,
        record {
          cell = ground (arith, there.cell);
          self = ground (arith, here.self, there.self);
          worker = ground (arith, here.self, there.self, there.worker);
        },
      )
      | no ne ↦
          let (k, known) = valid.entry j (omega arith) in
          (
            k,
            record {
              cell = ground (arith, known.cell);
              self = ground (arith, known.self, here.self, there.self);
              worker = ground (arith, known.self, here.self, there.self, known.worker);
            },
          )
    ]

    removed-IsValid : IsValid w removed
    removed-IsValid = record {
      room = valid.room;
      fits = omega (arith, valid.fits);
      entry = removed-entry;
    }

    removed-all_set : all_set removed.pool.array removed.pool.size ≡ true
    removed-all_set =
        all_set_of _ _ (λ j below. let (e, known) = removed-entry j below in (e, known.cell))

    contents-removed : Perm (some d ∷ contents removed.pool) (contents s.pool)
    contents-removed =
        subst (λ n. Perm (some d ∷ contents removed.pool) (window s.pool.array 0 n)) full
          (subst (λ c. Perm (c ∷ contents removed.pool) (window s.pool.array 0 (suc last)))
            here.cell (window-swap_remove s.pool.array last i none (omega arith)))
      where
        full : suc last ≡ s.pool.size
        full = omega arith

  -- Removing a deque that stands in a sound pool succeeds, if the worker's lock is held. The pool
  -- stays sound and holds, as often, exactly the other deques; the deque is left with no worker and
  -- the invalid position, and no deque outside the pool changes.
  pub deque_pool_remove_lem :
      (t : State) × (deque_pool_remove env d s ≡ ok t)
      × IsValid w t
      × Perm (some d ∷ contents t.pool) (contents s.pool)
      × ((t.items d).self ≡ invalid)
      × ((t.items d).worker ≡ none)
      × ((e : ℕ) → ((j : ℕ) → (s.items e).self ≢ at j) → t.items e ≡ s.items e)
  unfolding deque_pool_remove
  deque_pool_remove_lem =
      let (moved, there) = valid.entry last (omega arith) in
      (
        removed moved there,
        ground (
          arith,
          here.cell,
          here.self,
          here.worker,
          there.cell,
          there.self,
          there.worker,
          validate-ok env (removed moved there).pool w o locked,
          removed-all_set moved there,
        ),
        removed-IsValid moved there,
        contents-removed moved there,
        ground arith,
        ground arith,
        λ e out. ground (arith, out i, out last, here.self, there.self),
      )
