-- ===== src/FrameMalloc/Leaks.antt =====
-- The end of the allocator's life in cilk-l/runtime/frame_malloc.c: a worker gives its lists back, and
-- the global state is checked for leaks.
use mathlib.Core.Path.{subst}
use cilk_l.Prelude.{
  some-eq, ℕ, zero, suc, ◌+◌, ◌*◌, ◌%◌, ◌^◌, ◌≤◌, ◌<◌, ◌≡◌, refl, sym, ap, ◌∙◌, ◌≢◌, Bool, true,
  none, some, List, [], ◌∷◌, ◌++◌, length, arith, update_ne, total, total-zero, total-suc,
}
use cilk_l.FrameMalloc.{
  nbuckets, max_size, bucket_to_size, Global, Local, frame_malloc, frame_free, frame_malloc_roundup,
  move_bucket_to_global_free_list, cleanup_buckets, per_worker_cleanup, clean, leaked,
  frame_malloc_global_cleanup, frame_malloc_global_init, per_worker_init,
}
use cilk_l.FrameMalloc.Buckets.{bucket_of_size_lem, bucket_to_size_bounds}
use cilk_l.FrameMalloc.Ledger.{held_in, Ledger, IsPool}
use cilk_l.FrameMalloc.Malloc.{frame_malloc_lem}
use cilk_l.FrameMalloc.Free.{free_all-counter, free_all-limit, frame_free_lem}

-- A state after some buckets were moved: the counter stands at `x`, and the worker's lists are as
-- before where `kept` says so.
record Moved (checked : Bool) (l : Local) (x : ℕ) (kept : ℕ → Type 0) (r : Global × Local)
    : Type 0 where
  counter : r.0.allocated_from_global_pool ≡ x % 2 ^ 64
  checks : r.0.check_for_leaks ≡ checked
  lists : (c : ℕ) → kept c → r.1.free_list c ≡ l.free_list c

-- Moving one bucket lowers the counter by its bytes and leaves the other lists alone.
move-Moved :
    (g : Global) (l : Local) (b x : ℕ)
    → b < nbuckets
    → g.allocated_from_global_pool ≡ (x + held_in l.free_list b) % 2 ^ 64
    → Moved g.check_for_leaks l x (λ c. b < c) (move_bucket_to_global_free_list g l b)
unfolding move_bucket_to_global_free_list
move-Moved g l b x lt e = go (l.free_list b) refl
  where
    go :
        (qs : List ℕ)
        → l.free_list b ≡ qs
        → Moved g.check_for_leaks l x (λ c. b < c) (move_bucket_to_global_free_list g l b)
    go [] none_left =
        rw (none_left, move_bucket_to_global_free_list)
          (record {
            counter = omega (arith, ap (λ qs. length qs * bucket_to_size b) none_left);
            checks = refl;
            lists = λ c lt. refl;
          })
    go (q ∷ qs) some_left =
        rw (some_left, move_bucket_to_global_free_list)
          (record {
            counter =
                free_all-counter (q ∷ qs) g b (bucket_to_size b) x (bucket_to_size_bounds b lt).1
                  (omega (arith, ap (λ qs. length qs * bucket_to_size b) some_left));
            checks = (free_all-limit (q ∷ qs) g b (bucket_to_size b)).3;
            lists = λ c lt. update_ne l.free_list b c _ (omega arith);
          })

cleanup_buckets-Moved :
    (n : ℕ) (g : Global) (l : Local) (x : ℕ)
    → n ≤ nbuckets
    → g.allocated_from_global_pool ≡ (x + total n (held_in l.free_list)) % 2 ^ 64
    → Moved g.check_for_leaks l x (λ c. n ≤ c) (cleanup_buckets n g l)
unfolding cleanup_buckets
cleanup_buckets-Moved zero g l x le e = record {
  counter = omega (arith, total-zero (held_in l.free_list));
  checks = refl;
  lists = λ c h. refl;
}
cleanup_buckets-Moved (suc n) g l x le e =
    let before =
      cleanup_buckets-Moved n g l (x + held_in l.free_list n) (omega arith)
        (omega (arith, total-suc n (held_in l.free_list))) in
    let same = before.lists n (omega arith) in
    let m =
      move-Moved (cleanup_buckets n g l).0 (cleanup_buckets n g l).1 n x (omega arith)
        (omega (arith, before.counter, ap (λ qs. length qs * bucket_to_size n) same)) in
    record {
      counter = m.counter;
      checks = m.checks ∙ before.checks;
      lists = λ c h. m.lists c (omega arith) ∙ before.lists c (omega arith);
    }

-- When a worker gives its lists back, the counter goes down to what the worker did not hold.
pub per_worker_cleanup-counter :
    (g : Global) (l : Local) (rest : ℕ)
    → Ledger g l rest
    → ((per_worker_cleanup g l).0.allocated_from_global_pool ≡ rest % 2 ^ 64)
      × ((per_worker_cleanup g l).0.check_for_leaks ≡ g.check_for_leaks)
unfolding per_worker_cleanup
per_worker_cleanup-counter g l rest led =
    let m = cleanup_buckets-Moved nbuckets g l rest (omega arith) (omega arith) in
    (m.counter, m.checks)

-- The bytes of a block of this size.
abbrev pub rounded : ℕ → ℕ
rounded size = elim (frame_malloc_roundup size) [ none ↦ 0 | some r ↦ r ]

-- The bytes of the blocks in use, given by address and size.
abbrev pub bytes : List (ℕ × ℕ) → ℕ
bytes [] = 0
bytes ((p, size) ∷ live) = rounded size + bytes live

bytes-append :
    (xs ys : List (ℕ × ℕ)) (p size : ℕ)
    → bytes (xs ++ ((p, size) ∷ ys)) ≡ rounded size + bytes (xs ++ ys)
bytes-append [] ys p size = refl
bytes-append ((q, s) ∷ xs) ys p size = omega (arith, bytes-append xs ys p size)

-- What one worker can do with the allocator from its start: take blocks of up to 2048 bytes, and free
-- any block in use with the size that it was taken with. The third index is what is in use. No bucket
-- potential is near the end of `size_t` when a block is freed.
pub data Session (os : ℕ → ℕ) : Global → Local → List (ℕ × ℕ) → Type 0 where
  start : Session os frame_malloc_global_init per_worker_init []
  allocate :
      {g g' : Global} {l l' : Local} {live : List (ℕ × ℕ)} (size mem : ℕ)
      → Session os g l live
      → size ≤ max_size
      → frame_malloc os g l size ≡ some (mem, g', l')
      → Session os g' l' ((mem, size) ∷ live)
  release :
      {g g' : Global} {l l' : Local} {live live' : List (ℕ × ℕ)} (p size : ℕ) (xs ys : List (ℕ × ℕ))
      → Session os g l live
      → size ≤ max_size
      → live ≡ xs ++ ((p, size) ∷ ys)
      → live' ≡ xs ++ ys
      → ((b : ℕ) → l.bucket_potential b < 2 ^ 61)
      → frame_free g l p size ≡ some (g', l')
      → Session os g' l' live'

abbrev Small : List (ℕ × ℕ) → Type 0
Small [] = Unit {0}
Small ((p, size) ∷ live) = (size ≤ max_size) × Small live

fresh-IsPool : IsPool frame_malloc_global_init
unfolding frame_malloc_global_init
fresh-IsPool = omega arith

fresh_checks : frame_malloc_global_init.check_for_leaks ≡ true
unfolding frame_malloc_global_init
fresh_checks = refl

fresh-Ledger : Ledger frame_malloc_global_init per_worker_init 0
unfolding frame_malloc_global_init per_worker_init total
fresh-Ledger = refl

-- The accounts of a session.
record Balanced (g : Global) (l : Local) (live : List (ℕ × ℕ)) : Type 0 where
  pool : IsPool g
  ledger : Ledger g l (bytes live)
  checks : g.check_for_leaks ≡ true

roundup-rounded :
    (size : ℕ)
    → size ≤ max_size
    → (frame_malloc_roundup size ≡ some (rounded size)) × (64 ≤ rounded size)
roundup-rounded size small =
    let (b, e, lt, le, first) = bucket_of_size_lem size small in
    let run : frame_malloc_roundup size ≡ some (bucket_to_size b) =
      unfold frame_malloc_roundup in ground (arith, e) in
    let same : rounded size ≡ bucket_to_size b = ground (arith, run) in
    (ground arith, omega (arith, bucket_to_size_bounds b lt))

Session-Balanced :
    {os : ℕ → ℕ} {g : Global} {l : Local} {live : List (ℕ × ℕ)}
    → Session os g l live
    → Balanced g l live
Session-Balanced start = record {
  pool = fresh-IsPool;
  ledger = fresh-Ledger;
  checks = fresh_checks;
}
Session-Balanced {os} (allocate {g} {g'} {l} {l'} {live} size mem s small run) =
    let v = Session-Balanced s in
    let (m, h, k, run', ok, led, kept) =
      frame_malloc_lem os g l size (rounded size) (bytes live) small (roundup-rounded size small).0
        v.pool v.ledger in
    let same = some-eq (sym run' ∙ run) in
    record {
      pool = subst (λ (r : ℕ × Global × Local). IsPool r.1) same ok;
      ledger =
          subst (λ (r : ℕ × Global × Local). Ledger r.1 r.2 (rounded size + bytes live)) same led;
      checks =
          subst (λ (r : ℕ × Global × Local). r.1.check_for_leaks ≡ true) same (kept ∙ v.checks);
    }
Session-Balanced (release {g} {g'} {l} {l'} {live} {live'} p size xs ys s small was is low run) =
    let v = Session-Balanced s in
    let owed : bytes live ≡ rounded size + bytes live' =
      ap bytes was ∙ bytes-append xs ys p size ∙ ap (λ z. rounded size + bytes z) (sym is) in
    let (h, k, run', led, ends, kept, front) =
      frame_free_lem g l p size (rounded size) (bytes live') small (roundup-rounded size small).0
        low (omega (arith, v.ledger)) in
    let same = some-eq (sym run' ∙ run) in
    record {
      pool = subst (λ (r : Global × Local). IsPool r.0) same (omega (arith, v.pool));
      ledger = subst (λ (r : Global × Local). Ledger r.0 r.1 (bytes live')) same led;
      checks = subst (λ (r : Global × Local). r.0.check_for_leaks ≡ true) same (kept ∙ v.checks);
    }

bytes-eq-zero : (live : List (ℕ × ℕ)) → Small live → bytes live ≡ 0 → live ≡ []
bytes-eq-zero [] h e = refl
bytes-eq-zero ((p, size) ∷ live) h e = absurd (omega (arith, (roundup-rounded size h.0).1))

Small-remove :
    (xs ys : List (ℕ × ℕ)) (p size : ℕ) → Small (xs ++ ((p, size) ∷ ys)) → Small (xs ++ ys)
Small-remove [] ys p size h = h.1
Small-remove (x ∷ xs) ys p size h = (h.0, Small-remove xs ys p size h.1)

Session-Small :
    {os : ℕ → ℕ} {g : Global} {l : Local} {live : List (ℕ × ℕ)} → Session os g l live → Small live
Session-Small start = tt
Session-Small (allocate size mem s small run) = (small, Session-Small s)
Session-Small (release p size xs ys s small was is low run) =
    subst Small (sym is) (Small-remove xs ys p size (subst Small was (Session-Small s)))

-- After any session of one worker, with fewer than 2^64 bytes in use, the worker's cleanup followed by the global cleanup tells exactly whether something is still in use: it
-- ends well only if no block is, and if no block is it does not report a leak.
pub cleanup_finds_leaks :
    {os : ℕ → ℕ} {g : Global} {l : Local} {live : List (ℕ × ℕ)}
    → Session os g l live
    → bytes live < 2 ^ 64
    → ((chunks : List ℕ)
        → frame_malloc_global_cleanup (per_worker_cleanup g l).0 ≡ clean chunks
        → live ≡ [])
      × (live ≡ [] → frame_malloc_global_cleanup (per_worker_cleanup g l).0 ≢ leaked)
unfolding frame_malloc_global_cleanup
cleanup_finds_leaks {g = g} {l = l} {live = live} s fits =
    let v = Session-Balanced s in
    let (counter, kept) = per_worker_cleanup-counter g l (bytes live) v.ledger in
    let on = kept ∙ v.checks in
    (
      (λ chunks e. bytes-eq-zero live (Session-Small s) (ground arith)),
      λ nothing e. let zero_left = ap bytes nothing in ground arith,
    )
