-- ===== src/FrameMalloc/Malloc.antt =====
-- `allocate_batch` and `__cilkrts_frame_malloc` of cilk-l/runtime/frame_malloc.c: they return, and
-- the accounts stay balanced.
use cilk_l.Prelude.{
  ℕ, zero, suc, ◌+◌, ◌*◌, ◌≤◌, ◌<◌, ◌≡◌, refl, ap, ◌∙◌, inl, inr, true, false, Option, some, List,
  [], ◌∷◌, length, arith, update, update_self, Bool-cases, ltb, ltb→lt,
}
use cilk_l.FrameMalloc.{
  nbuckets, max_size, bucket_to_size, add_size, Global, Local, global_alloc, batch_loop,
  allocate_batch, pop_loop, frame_malloc, frame_malloc_roundup,
}
use cilk_l.FrameMalloc.Buckets.{bucket_of_size_lem, bucket_to_size_bounds}
use cilk_l.FrameMalloc.Ledger.{held, held-update, Ledger, IsPool, Allocated, global_alloc-Allocated}

-- The worker with one more block on a list.
abbrev stocked : Local → ℕ → ℕ → Local
stocked l b mem = record {
  bucket_potential =
      update l.bucket_potential b (add_size (l.bucket_potential b) (bucket_to_size b));
  free_list = update l.free_list b (mem ∷ l.free_list b);
}

abbrev popped : Local → ℕ → List ℕ → Local
popped l b rest = record l { free_list = update l.free_list b rest }

held-stocked :
    (l : Local) (b mem : ℕ) → b < nbuckets → held (stocked l b mem) ≡ held l + bucket_to_size b
held-stocked l b mem lt = omega (arith, held-update l.free_list b (mem ∷ l.free_list b) lt)

held-popped :
    (l : Local) (b mem : ℕ) (rest : List ℕ)
    → b < nbuckets
    → l.free_list b ≡ mem ∷ rest
    → held l ≡ held (popped l b rest) + bucket_to_size b
held-popped l b mem rest lt e =
    let n : length (l.free_list b) * bucket_to_size b ≡ suc (length rest) * bucket_to_size b =
      ap (λ xs. length xs * bucket_to_size b) e in
    omega (arith, held-update l.free_list b rest lt)

module _ (os : ℕ → ℕ) where
  batch_loop-more :
      (fuel : ℕ) (g g' : Global) (l : Local) (b bytes mem : ℕ)
      → global_alloc os g b ≡ some (mem, g')
      → ltb (bytes + bucket_to_size b) g.batch_size ≡ true
      → batch_loop os (suc fuel) g l b bytes
        ≡ batch_loop os fuel g' (stocked l b mem) b (bytes + bucket_to_size b)
  unfolding batch_loop
  batch_loop-more fuel g g' l b bytes mem e more = ground arith

  batch_loop-done :
      (fuel : ℕ) (g g' : Global) (l : Local) (b bytes mem : ℕ)
      → global_alloc os g b ≡ some (mem, g')
      → ltb (bytes + bucket_to_size b) g.batch_size ≡ false
      → batch_loop os (suc fuel) g l b bytes ≡ some (g', stocked l b mem)
  unfolding batch_loop
  batch_loop-done fuel g g' l b bytes mem e done = ground arith

  pop_loop-found :
      (fuel : ℕ) (g : Global) (l : Local) (b mem : ℕ) (rest : List ℕ)
      → l.free_list b ≡ mem ∷ rest
      → pop_loop os (suc fuel) g l b ≡ some (mem, g, popped l b rest)
  unfolding pop_loop
  pop_loop-found fuel g l b mem rest e = ground arith

  pop_loop-batch :
      (fuel : ℕ) (g g' : Global) (l l' : Local) (b : ℕ)
      → l.free_list b ≡ []
      → allocate_batch os g l b ≡ some (g', l')
      → pop_loop os (suc fuel) g l b ≡ pop_loop os fuel g' l' b
  unfolding pop_loop
  pop_loop-batch fuel g g' l l' b e run = ground arith

  -- What a batch leaves: the accounts balanced, and a block on the list.
  record Batched (g : Global) (l : Local) (b rest : ℕ) (r : Option (Global × Local)) : Type 0 where
    global : Global
    local : Local
    run : r ≡ some (global, local)
    pool : IsPool global
    ledger : Ledger global local rest
    limit : global.potential_limit ≡ g.potential_limit
    checks : global.check_for_leaks ≡ g.check_for_leaks
    mem : ℕ
    others : List ℕ
    some_block : local.free_list b ≡ mem ∷ others

  batch_loop-Batched :
      (fuel : ℕ) (g : Global) (l : Local) (b bytes rest : ℕ)
      → IsPool g
      → b < nbuckets
      → Ledger g l rest
      → g.batch_size < bytes + fuel
      → 0 < fuel
      → Batched g l b rest (batch_loop os fuel g l b bytes)
  batch_loop-Batched zero g l b bytes rest ok lt led enough pos = absurd (omega arith)
  batch_loop-Batched (suc fuel) g l b bytes rest ok lt led enough pos =
      elim (Bool-cases (ltb (bytes + bucket_to_size b) g.batch_size)) [
        | inl more ↦
            let r =
              batch_loop-Batched fuel a.after (stocked l b a.mem) b (bytes + bucket_to_size b) rest
                a.pool lt balanced (fuel_left more).0 (fuel_left more).1 in
            record {
              global = r.global;
              local = r.local;
              run = batch_loop-more fuel g a.after l b bytes a.mem a.run more ∙ r.run;
              pool = r.pool;
              ledger = r.ledger;
              limit = omega (arith, r.limit, a.limit);
              checks = r.checks ∙ a.checks;
              mem = r.mem;
              others = r.others;
              some_block = r.some_block;
            }
        | inr done ↦ record {
          global = a.after;
          local = stocked l b a.mem;
          run = batch_loop-done fuel g a.after l b bytes a.mem a.run done;
          pool = a.pool;
          ledger = balanced;
          limit = a.limit;
          checks = a.checks;
          mem = a.mem;
          others = l.free_list b;
          some_block = update_self l.free_list b (a.mem ∷ l.free_list b);
        }
      ]
    where
      a : Allocated os g b
      a = global_alloc-Allocated os g b ok lt

      balanced : Ledger a.after (stocked l b a.mem) rest
      balanced = omega (arith, a.counted, held-stocked l b a.mem lt)

      fuel_left :
          ltb (bytes + bucket_to_size b) g.batch_size ≡ true
          → (a.after.batch_size < bytes + bucket_to_size b + fuel) × (0 < fuel)
      fuel_left more =
          let bounds = bucket_to_size_bounds b lt in
          let below = ltb→lt _ _ more in let same = a.batch in omega arith

  allocate_batch-Batched :
      (g : Global) (l : Local) (b rest : ℕ)
      → IsPool g
      → b < nbuckets
      → Ledger g l rest
      → Batched g l b rest (allocate_batch os g l b)
  unfolding allocate_batch
  allocate_batch-Batched g l b rest ok lt led =
      batch_loop-Batched (suc g.batch_size) g l b 0 rest ok lt led (omega arith) (omega arith)

  -- What a call of the allocator leaves.
  pub record Served (g : Global) (l : Local) (size rest : ℕ) (r : Option (ℕ × Global × Local))
      : Type 0 where
    pub mem : ℕ
    pub global : Global
    pub local : Local
    pub run : r ≡ some (mem, global, local)
    pub pool : IsPool global
    pub ledger : Ledger global local (size + rest)
    pub limit : global.potential_limit ≡ g.potential_limit
    pub checks : global.check_for_leaks ≡ g.check_for_leaks

  pop_loop-Served :
      (g : Global) (l : Local) (b rest : ℕ)
      → IsPool g
      → b < nbuckets
      → Ledger g l rest
      → Served g l (bucket_to_size b) rest (pop_loop os 2 g l b)
  pop_loop-Served g l b rest ok lt led = go (l.free_list b) refl
    where
      go :
          (xs : List ℕ)
          → l.free_list b ≡ xs
          → Served g l (bucket_to_size b) rest (pop_loop os 2 g l b)
      go (mem ∷ others) e = record {
        mem = mem;
        global = g;
        local = popped l b others;
        run = pop_loop-found 1 g l b mem others e;
        pool = ok;
        ledger = omega (arith, held-popped l b mem others lt e);
        limit = refl;
        checks = refl;
      }
      go [] e =
          let r = allocate_batch-Batched g l b rest ok lt led in
          record {
            mem = r.mem;
            global = r.global;
            local = popped r.local b r.others;
            run =
                pop_loop-batch 1 g r.global l r.local b e r.run
                ∙ pop_loop-found 0 r.global r.local b r.mem r.others r.some_block;
            pool = r.pool;
            ledger = omega (arith, r.ledger, held-popped r.local b r.mem r.others lt r.some_block);
            limit = r.limit;
            checks = r.checks;
          }

  -- For a size up to 2048 bytes `__cilkrts_frame_malloc` returns a block, whatever the free lists hold.
  -- If the pool's ends are in order and `allocated_from_global_pool` is, modulo 2^64, the bytes on the
  -- worker's lists and some rest, then after the call the ends are in order and the counter is the
  -- bytes on the lists, the rest and the rounded size; whether leaks are checked for does not change.
  pub frame_malloc_lem :
      (g : Global) (l : Local) (size rounded rest : ℕ)
      → size ≤ max_size
      → frame_malloc_roundup size ≡ some rounded
      → IsPool g
      → Ledger g l rest
      → (mem : ℕ) × (g' : Global) × (l' : Local) × (frame_malloc os g l size ≡ some (mem, g', l'))
        × IsPool g'
        × Ledger g' l' (rounded + rest)
        × (g'.check_for_leaks ≡ g.check_for_leaks)
  unfolding frame_malloc frame_malloc_roundup
  frame_malloc_lem g l size rounded rest small round ok led =
      let (b, e, lt, le, first) = bucket_of_size_lem size small in
      let r = pop_loop-Served g l b rest ok lt led in
      let same : rounded ≡ bucket_to_size b = ground (arith, e) in
      (
        r.mem,
        r.global,
        r.local,
        rw (e, frame_malloc) r.run,
        r.pool,
        omega (arith, r.ledger),
        r.checks,
      )
