-- ===== src/FrameMalloc/Ledger.antt =====
-- The allocator's accounts: `allocated_from_global_pool` of cilk-l/runtime/frame_malloc.c against the
-- blocks that the worker holds and those that are in use.
use cilk_l.Prelude.{
  ℕ, ◌+◌, ◌-◌, ◌*◌, ◌%◌, ◌^◌, ◌≤◌, ◌<◌, ◌≡◌, refl, sym, ap, inl, inr, some, List, [], ◌∷◌, length,
  arith, update, update_self, update_ne, total, total-change, Bool-cases, ltb, lt→ltb,
}
use cilk_l.FrameMalloc.{
  nbuckets, max_size, chunk, bucket_to_size, add_size, Global, Local, carve, global_alloc,
}
use cilk_l.FrameMalloc.Buckets.{bucket_to_size_bounds}

-- Bytes on the worker's list for bucket `b`, and on all its lists.
abbrev pub held_in : (ℕ → List ℕ) → ℕ → ℕ
held_in f b = length (f b) * bucket_to_size b

abbrev pub held : Local → ℕ
held l = total nbuckets (held_in l.free_list)

-- What the global pool has given away is on the worker's lists, or it is the rest.
abbrev pub Ledger : Global → Local → ℕ → Type 0
Ledger g l rest = g.allocated_from_global_pool ≡ (held l + rest) % 2 ^ 64

abbrev pub IsPool : Global → Type 0
IsPool g = g.pool_begin ≤ g.pool_end

-- Exchanging the list of one bucket.
pub held-update :
    (f : ℕ → List ℕ) (b : ℕ) (xs : List ℕ)
    → b < nbuckets
    → total nbuckets (held_in (update f b xs)) + length (f b) * bucket_to_size b
      ≡ total nbuckets (held_in f) + length xs * bucket_to_size b
held-update f b xs lt =
    let h =
      total-change nbuckets (held_in (update f b xs)) (held_in f) b lt
        (λ j ne. ap (λ ys. length ys * bucket_to_size j) (update_ne f b j xs (λ e. ne (sym e)))) in
    let here : held_in (update f b xs) b ≡ length xs * bucket_to_size b =
      ap (λ ys. length ys * bucket_to_size b) (update_self f b xs) in
    omega arith

module _ (os : ℕ → ℕ) where
  -- What a block from the global pool does to the accounts.
  pub record Allocated (g : Global) (b : ℕ) : Type 0 where
    pub mem : ℕ
    pub after : Global
    pub run : global_alloc os g b ≡ some (mem, after)
    pub pool : IsPool after
    pub counted :
        after.allocated_from_global_pool ≡ add_size g.allocated_from_global_pool (bucket_to_size b)
    pub batch : after.batch_size ≡ g.batch_size
    pub limit : after.potential_limit ≡ g.potential_limit
    pub checks : after.check_for_leaks ≡ g.check_for_leaks

  -- What a cut of the pool leaves.
  record Carved (g : Global) (size : ℕ) : Type 0 where
    mem : ℕ
    after : Global
    run : carve os g size ≡ some (mem, after)
    pool : IsPool after
    counted : after.allocated_from_global_pool ≡ g.allocated_from_global_pool
    batch : after.batch_size ≡ g.batch_size
    limit : after.potential_limit ≡ g.potential_limit
    checks : after.check_for_leaks ≡ g.check_for_leaks

  carve-Carved : (g : Global) (size : ℕ) → IsPool g → size ≤ max_size → Carved g size
  unfolding carve
  carve-Carved g size ok small = elim (Bool-cases (ltb g.pool_end (g.pool_begin + size))) [
    | inl full ↦ record {
      mem = os (length g.pool_list);
      after = record g {
        pool_begin = os (length g.pool_list) + size;
        pool_end = os (length g.pool_list) + chunk;
        wasted = add_size g.wasted (g.pool_end - g.pool_begin);
        allocated_from_os = add_size g.allocated_from_os chunk;
        pool_list = os (length g.pool_list) ∷ g.pool_list;
      };
      run = ground arith;
      pool = omega arith;
      counted = refl;
      batch = refl;
      limit = refl;
      checks = refl;
    }
    | inr fits ↦ record {
      mem = g.pool_begin;
      after = record g { pool_begin = g.pool_begin + size };
      run = ground arith;
      pool = ground arith;
      counted = refl;
      batch = refl;
      limit = refl;
      checks = refl;
    }
  ]

  pub global_alloc-Allocated : (g : Global) (b : ℕ) → IsPool g → b < nbuckets → Allocated g b
  unfolding global_alloc
  global_alloc-Allocated g b ok lt = go (g.global_free_list b) refl
    where
      charged : Global
      charged = record g {
        allocated_from_global_pool = add_size g.allocated_from_global_pool (bucket_to_size b);
      }

      go : (xs : List ℕ) → g.global_free_list b ≡ xs → Allocated g b
      go [] e =
          let c = carve-Carved charged (bucket_to_size b) ok (bucket_to_size_bounds b lt).1 in
          record {
            mem = c.mem;
            after = c.after;
            run = rw (lt→ltb b nbuckets lt, e) c.run;
            pool = c.pool;
            counted = c.counted;
            batch = c.batch;
            limit = c.limit;
            checks = c.checks;
          }
      go (x ∷ xs) e = record {
        mem = x;
        after = record charged { global_free_list = update g.global_free_list b xs };
        run = rw (lt→ltb b nbuckets lt, e);
        pool = ok;
        counted = refl;
        batch = refl;
        limit = refl;
        checks = refl;
      }
