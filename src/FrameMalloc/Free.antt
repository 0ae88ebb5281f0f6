-- ===== src/FrameMalloc/Free.antt =====
-- `gc_bucket` and `__cilkrts_frame_free` of cilk-l/runtime/frame_malloc.c.
use mathlib.Core.List.{reverse, reverse-cons, append_assoc, append-nil}
use mathlib.Core.Path.{subst}
use cilk_l.Prelude.{
  ℕ, suc, ◌+◌, ◌*◌, ◌%◌, ◌^◌, ◌≤◌, ◌<◌, ◌≡◌, refl, sym, ap, ◌∙◌, ◌≢◌, inl, inr, true, false, some,
  List, [], ◌∷◌, ◌++◌, length, length-append, arith, update, update_self, update_ne, Bool-cases,
  ltb, ltb→lt,
}
use cilk_l.FrameMalloc.{
  nbuckets, max_size, bucket_to_size, add_size, Global, Local, global_free, free_all, gc_walk,
  gc_bucket, frame_free, bucket_of_size, frame_malloc_roundup,
}
use cilk_l.FrameMalloc.Buckets.{bucket_of_size_lem, bucket_to_size_bounds}
use cilk_l.FrameMalloc.Ledger.{held, held-update, Ledger}

-- Giving `n` blocks back lowers the counter by their bytes.
pub free_all-counter :
    (qs : List ℕ) (g : Global) (b size x : ℕ)
    → size ≤ max_size
    → g.allocated_from_global_pool ≡ (x + length qs * size) % 2 ^ 64
    → (free_all g qs b size).allocated_from_global_pool ≡ x % 2 ^ 64
unfolding free_all
free_all-counter [] g b size x small e = omega arith
free_all-counter (q ∷ qs) g b size x small e =
    free_all-counter qs (global_free g q b size) b size x small charged
  where
    charged : (global_free g q b size).allocated_from_global_pool ≡ (x + length qs * size) % 2 ^ 64
    charged = unfold global_free in omega arith

-- The blocks go to the front of the global list one by one.
pub free_all-list :
    (qs : List ℕ) (g : Global) (b size : ℕ)
    → (free_all g qs b size).global_free_list b ≡ reverse qs ++ g.global_free_list b
unfolding free_all global_free
free_all-list [] g b size = refl
free_all-list (q ∷ qs) g b size =
    free_all-list qs (global_free g q b size) b size
    ∙ ap (λ l. reverse qs ++ l) (update_self g.global_free_list b (q ∷ g.global_free_list b))
    ∙ sym (
        ap (λ l. l ++ g.global_free_list b) (reverse-cons q qs)
        ∙ append_assoc (reverse qs) (q ∷ []) (g.global_free_list b))

-- What the walk of `gc_bucket` returns, started with `newpot` counted.
record Walked (pot size newpot : ℕ) (ps : List ℕ) (r : ℕ × List ℕ × List ℕ) : Type 0 where
  split : r.1 ++ r.2 ≡ ps
  counted : r.0 ≡ newpot + length r.1 * size
  bound : 2 * r.0 < pot + 2 * size

gc_walk-Walked :
    (pot size newpot : ℕ) (ps : List ℕ)
    → pot < 2 ^ 62
    → size ≤ max_size
    → 2 * newpot < pot + 2 * size
    → Walked pot size newpot ps (gc_walk pot size newpot ps)
unfolding gc_walk
gc_walk-Walked pot size newpot [] hp hs h = record {
  split = refl;
  counted = omega arith;
  bound = h;
}
gc_walk-Walked pot size newpot (p ∷ ps) hp hs h =
    elim (Bool-cases (ltb (2 * newpot % 2 ^ 64) pot)) [
      | inl on ↦
          let w = gc_walk-Walked pot size (add_size newpot size) ps hp hs (next on) in
          record {
            split = rw on (ap (λ l. p ∷ l) w.split);
            counted = rw on (omega (arith, w.counted));
            bound = rw on w.bound;
          }
      | inr stop ↦ record { split = rw stop; counted = rw stop (omega arith); bound = rw stop h }
    ]
  where
    next : ltb (2 * newpot % 2 ^ 64) pot ≡ true → 2 * add_size newpot size < pot + 2 * size
    next on = let lt = ltb→lt _ _ on in omega arith

pub free_all-limit :
    (qs : List ℕ) (g : Global) (b size : ℕ)
    → ((free_all g qs b size).potential_limit ≡ g.potential_limit)
      × ((free_all g qs b size).pool_begin ≡ g.pool_begin)
      × ((free_all g qs b size).pool_end ≡ g.pool_end)
      × ((free_all g qs b size).check_for_leaks ≡ g.check_for_leaks)
unfolding free_all global_free
free_all-limit [] g b size = (refl, refl, refl, refl)
free_all-limit (q ∷ qs) g b size = free_all-limit qs (global_free g q b size) b size

-- What a collection of bucket `b` does.
pub record Collected (g : Global) (l : Local) (b rest : ℕ) (r : Global × Local) : Type 0 where
  pub freed : List ℕ
  pub split : r.1.free_list b ++ freed ≡ l.free_list b
  pub given : r.0.global_free_list b ≡ reverse freed ++ g.global_free_list b
  pub bound :
      2 * (length (r.1.free_list b) * bucket_to_size b)
      < l.bucket_potential b + 4 * bucket_to_size b
  pub ledger : Ledger r.0 r.1 rest
  pub pool : (r.0.pool_begin ≡ g.pool_begin) × (r.0.pool_end ≡ g.pool_end)
  pub checks : r.0.check_for_leaks ≡ g.check_for_leaks
  pub others : (c : ℕ) → c ≢ b → r.1.free_list c ≡ l.free_list c

abbrev walk : Local → ℕ → ℕ × List ℕ × List ℕ
walk l b = gc_walk (l.bucket_potential b) (bucket_to_size b) 0 (l.free_list b)

abbrev emptied : Local → ℕ → Local
emptied l b = record l { bucket_potential = update l.bucket_potential b (walk l b).0 }

abbrev trimmed : Local → ℕ → ℕ → Local
trimmed l b p = record {
  bucket_potential = update l.bucket_potential b (walk l b).0;
  free_list = update l.free_list b ((walk l b).1 ++ (p ∷ []));
}

gc_bucket-emptied :
    (g : Global) (l : Local) (b : ℕ)
    → (walk l b).2 ≡ []
    → gc_bucket g l b (bucket_to_size b) ≡ (g, emptied l b)
unfolding gc_bucket
gc_bucket-emptied g l b e = rw (e, gc_bucket)

gc_bucket-trimmed :
    (g : Global) (l : Local) (b p : ℕ) (ps : List ℕ)
    → (walk l b).2 ≡ p ∷ ps
    → gc_bucket g l b (bucket_to_size b) ≡ (free_all g ps b (bucket_to_size b), trimmed l b p)
unfolding gc_bucket
gc_bucket-trimmed g l b p ps e = rw (e, gc_bucket)

module _ (g : Global) (l : Local) (b rest : ℕ) (lt : b < nbuckets)
    (hp : l.bucket_potential b < 2 ^ 62) (led : Ledger g l rest) where
  walked : Walked (l.bucket_potential b) (bucket_to_size b) 0 (l.free_list b) (walk l b)
  walked =
      gc_walk-Walked (l.bucket_potential b) (bucket_to_size b) 0 (l.free_list b) hp
        (bucket_to_size_bounds b lt).1 (omega (arith, bucket_to_size_bounds b lt))

  emptied-Collected : (walk l b).2 ≡ [] → Collected g l b rest (g, emptied l b)
  emptied-Collected e = record {
    freed = [];
    split = append-nil (l.free_list b);
    given = refl;
    bound = omega (arith, walked.counted, walked.bound, bytes, bucket_to_size_bounds b lt);
    ledger = led;
    pool = (refl, refl);
    checks = refl;
    others = λ c ne. refl;
  }
    where
      whole : l.free_list b ≡ (walk l b).1
      whole = sym walked.split ∙ ap (λ ps. (walk l b).1 ++ ps) e ∙ append-nil (walk l b).1

      bytes : length (l.free_list b) * bucket_to_size b ≡ length (walk l b).1 * bucket_to_size b
      bytes = ap (λ ps. length ps * bucket_to_size b) whole

  trimmed-Collected :
      (p : ℕ) (ps : List ℕ)
      → (walk l b).2 ≡ p ∷ ps
      → Collected g l b rest (free_all g ps b (bucket_to_size b), trimmed l b p)
  trimmed-Collected p ps e = record {
    freed = ps;
    split = ap (λ k. k ++ ps) here ∙ append_assoc (walk l b).1 (p ∷ []) ps ∙ whole;
    given = free_all-list ps g b (bucket_to_size b);
    bound = omega (arith, walked.counted, walked.bound, kept, bucket_to_size_bounds b lt);
    ledger =
        free_all-counter ps g b (bucket_to_size b) (held (trimmed l b p) + rest)
          (bucket_to_size_bounds b lt).1 before;
    pool = (let same = free_all-limit ps g b (bucket_to_size b) in (same.1, same.2));
    checks = (free_all-limit ps g b (bucket_to_size b)).3;
    others = λ c ne. update_ne l.free_list b c _ (λ same. ne (sym same));
  }
    where
      here : (trimmed l b p).free_list b ≡ (walk l b).1 ++ (p ∷ [])
      here = update_self l.free_list b ((walk l b).1 ++ (p ∷ []))

      whole : (walk l b).1 ++ (p ∷ ps) ≡ l.free_list b
      whole = ap (λ k. (walk l b).1 ++ k) (sym e) ∙ walked.split

      kept :
          length ((trimmed l b p).free_list b) * bucket_to_size b
          ≡ (length (walk l b).1 + 1) * bucket_to_size b
      kept =
          ap (λ k. length k * bucket_to_size b) here
          ∙ ap (λ n. n * bucket_to_size b) (length-append (walk l b).1 (p ∷ []))

      all :
          length (l.free_list b) * bucket_to_size b
          ≡ (length (walk l b).1 + suc (length ps)) * bucket_to_size b
      all =
          ap (λ k. length k * bucket_to_size b) (sym whole)
          ∙ ap (λ n. n * bucket_to_size b) (length-append (walk l b).1 (p ∷ ps))

      front :
          length ((walk l b).1 ++ (p ∷ [])) * bucket_to_size b
          ≡ (length (walk l b).1 + 1) * bucket_to_size b
      front = ap (λ n. n * bucket_to_size b) (length-append (walk l b).1 (p ∷ []))

      before :
          g.allocated_from_global_pool
          ≡ (held (trimmed l b p) + rest + length ps * bucket_to_size b) % 2 ^ 64
      before =
          omega (arith, held-update l.free_list b ((walk l b).1 ++ (p ∷ [])) lt, front, all, led)

-- Collecting a bucket whose potential is below 2^62 splits its list: a front part stays on it, with
-- fewer bytes than half the potential and two blocks, and the blocks behind it go to the bucket's
-- global list, each in front of the ones before. No other list of the worker changes, the pool stays
-- as it was, and the accounts stay balanced.
pub gc_bucket_lem :
    (g : Global) (l : Local) (b rest : ℕ)
    → b < nbuckets
    → l.bucket_potential b < 2 ^ 62
    → Ledger g l rest
    → Collected g l b rest (gc_bucket g l b (bucket_to_size b))
gc_bucket_lem g l b rest lt hp led = go (walk l b).2 refl
  where
    go :
        (ps : List ℕ)
        → (walk l b).2 ≡ ps
        → Collected g l b rest (gc_bucket g l b (bucket_to_size b))
    go [] e = rw (gc_bucket-emptied g l b e) (emptied-Collected g l b rest lt hp led e)
    go (p ∷ ps) e =
        rw (gc_bucket-trimmed g l b p ps e) (trimmed-Collected g l b rest lt hp led p ps e)

-- The worker with the freed block on its list.
abbrev given_back : Local → ℕ → ℕ → Local
given_back l b p = record {
  bucket_potential =
      update l.bucket_potential b (add_size (l.bucket_potential b) (bucket_to_size b));
  free_list = update l.free_list b (p ∷ l.free_list b);
}

same_bucket : (size a b : ℕ) → bucket_of_size size ≡ some a → bucket_of_size size ≡ some b → a ≡ b
same_bucket size a b p q = ground arith

frame_free-kept :
    (g : Global) (l : Local) (p size b : ℕ)
    → bucket_of_size size ≡ some b
    → ltb g.potential_limit ((given_back l b p).bucket_potential b) ≡ false
    → frame_free g l p size ≡ some (g, given_back l b p)
unfolding frame_free
frame_free-kept g l p size b e low = ground arith

frame_free-collected :
    (g : Global) (l : Local) (p size b : ℕ)
    → bucket_of_size size ≡ some b
    → ltb g.potential_limit ((given_back l b p).bucket_potential b) ≡ true
    → frame_free g l p size ≡ some (gc_bucket g (given_back l b p) b (bucket_to_size b))
unfolding frame_free
frame_free-collected g l p size b e high = ground arith

-- Freeing a block of a size up to 2048 bytes succeeds. If the bucket potentials are below 2^61 and the
-- accounts are balanced with the block's rounded size among the rest, they are balanced without it
-- afterwards, the pool is as it was, and so is whether leaks are checked for. If the bucket's potential stays within the limit, the block is
-- the first on its list, for the next allocation from that bucket.
pub frame_free_lem :
    (g : Global) (l : Local) (p size rounded rest : ℕ)
    → size ≤ max_size
    → frame_malloc_roundup size ≡ some rounded
    → ((b : ℕ) → l.bucket_potential b < 2 ^ 61)
    → Ledger g l (rounded + rest)
    → (g' : Global) × (l' : Local) × (frame_free g l p size ≡ some (g', l'))
      × Ledger g' l' rest
      × ((g'.pool_begin ≡ g.pool_begin) × (g'.pool_end ≡ g.pool_end))
      × (g'.check_for_leaks ≡ g.check_for_leaks)
      × ((b : ℕ)
          → bucket_of_size size ≡ some b
          → l.bucket_potential b + rounded ≤ g.potential_limit
          → l'.free_list b ≡ p ∷ l.free_list b)
unfolding frame_malloc_roundup
frame_free_lem g l p size rounded rest small round low led =
    let (b, e, lt, le, first) = bucket_of_size_lem size small in
    let bounds = bucket_to_size_bounds b lt in
    let same : rounded ≡ bucket_to_size b = ground (arith, e) in
    let balanced : Ledger g (given_back l b p) rest =
      omega (arith, held-update l.free_list b (p ∷ l.free_list b) lt) in
    let potential =
      update_self l.bucket_potential b (add_size (l.bucket_potential b) (bucket_to_size b)) in
    let front = update_self l.free_list b (p ∷ l.free_list b) in
    let found : (b' : ℕ) → bucket_of_size size ≡ some b' → b' ≡ b =
      λ b' e'. same_bucket size b' b e' e in
    elim (Bool-cases (ltb g.potential_limit ((given_back l b p).bucket_potential b))) [
      | inl high ↦
          let c = gc_bucket_lem g (given_back l b p) b rest lt (omega (arith, low b)) balanced in
          let over = ltb→lt _ _ high in
          (
            (gc_bucket g (given_back l b p) b (bucket_to_size b)).0,
            (gc_bucket g (given_back l b p) b (bucket_to_size b)).1,
            frame_free-collected g l p size b e high,
            c.ledger,
            c.pool,
            c.checks,
            λ b' e' within.
                absurd (let now = ap l.bucket_potential (found b' e') in omega (arith, potential)),
          )
      | inr within ↦ (
        g,
        given_back l b p,
        frame_free-kept g l p size b e within,
        balanced,
        (refl, refl),
        refl,
        λ b' e' w.
            subst (λ c. (given_back l b p).free_list c ≡ p ∷ l.free_list c) (sym (found b' e'))
              front,
      )
    ]
