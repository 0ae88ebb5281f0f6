-- ===== src/FrameMalloc/Tests.antt =====
-- Runs of the frame allocator on small inputs.
use cilk_l.Prelude.{
  ℕ, ◌+◌, ◌*◌, ◌^◌, ◌≤◌, ◌<◌, ◌≡◌, refl, ◌≢◌, true, some, List, [], ◌∷◌, arith, update, total,
}
use cilk_l.FrameMalloc.{
  Global, Local, frame_malloc_global_init, per_worker_init, bucket_of_size, frame_malloc_roundup,
  frame_malloc, frame_free, gc_bucket, per_worker_cleanup, frame_malloc_global_cleanup, clean,
  leaked,
}
use cilk_l.FrameMalloc.Ledger.{Ledger, IsPool}
use cilk_l.FrameMalloc.Malloc.{frame_malloc_lem}
use cilk_l.FrameMalloc.Free.{Collected, gc_bucket_lem, frame_free_lem}
use cilk_l.FrameMalloc.Leaks.{Session, start, allocate, cleanup_finds_leaks}

-- The chunks that the system gives.
abbrev os : ℕ → ℕ
os n = (n + 1) * 100000

first-IsPool : IsPool frame_malloc_global_init
unfolding frame_malloc_global_init
first-IsPool = omega arith

first-Ledger : Ledger frame_malloc_global_init per_worker_init 0
unfolding frame_malloc_global_init per_worker_init total
first-Ledger = refl

frame_malloc_lem_example :
    (mem : ℕ) × (g' : Global) × (l' : Local) × (frame_malloc os frame_malloc_global_init
        per_worker_init 1500
      ≡ some (mem, g', l'))
    × IsPool g'
    × Ledger g' l' (2048 + 0)
    × (g'.check_for_leaks ≡ frame_malloc_global_init.check_for_leaks)
unfolding frame_malloc_roundup bucket_of_size
frame_malloc_lem_example =
    frame_malloc_lem os frame_malloc_global_init per_worker_init 1500 2048 0 (omega arith) refl
      first-IsPool first-Ledger

-- A worker with four free blocks of 2048 bytes and a potential that keeps two of them.
abbrev stocked : Local
stocked = record {
  free_list = update (λ b. []) 5 (11 ∷ 12 ∷ 13 ∷ 14 ∷ []);
  bucket_potential = update (λ b. 0) 5 2048;
}

abbrev charged : Global
charged = record {
  pool_list = [];
  pool_begin = 0;
  pool_end = 0;
  global_free_list = λ b. [];
  batch_size = 8000;
  potential_limit = 32000;
  allocated_from_os = 32640;
  allocated_from_global_pool = 10240;
  wasted = 0;
  check_for_leaks = true;
}

charged-Ledger : Ledger charged stocked 2048
unfolding total
charged-Ledger = refl

gc_bucket_lem_example : Collected charged stocked 5 2048 (gc_bucket charged stocked 5 2048)
gc_bucket_lem_example =
    gc_bucket_lem charged stocked 5 2048 (omega arith) (omega arith) charged-Ledger

keeps_two : (gc_bucket charged stocked 5 2048).1.free_list 5 ≡ 11 ∷ 12 ∷ []
unfolding gc_bucket
keeps_two = refl

low : (b : ℕ) → stocked.bucket_potential b < 2 ^ 61
low b = ground arith

frame_free_lem_example :
    (g' : Global) × (l' : Local) × (frame_free charged stocked 15 1500 ≡ some (g', l'))
    × Ledger g' l' 0
    × ((g'.pool_begin ≡ 0) × (g'.pool_end ≡ 0))
    × (g'.check_for_leaks ≡ true)
    × ((b : ℕ)
        → bucket_of_size 1500 ≡ some b
        → stocked.bucket_potential b + 2048 ≤ 32000
        → l'.free_list b ≡ 15 ∷ stocked.free_list b)
unfolding frame_malloc_roundup bucket_of_size
frame_free_lem_example =
    frame_free_lem charged stocked 15 1500 2048 0 (omega arith) refl low charged-Ledger

-- The first block of 1500 bytes that a worker takes.
first_block :
    (mem : ℕ) × (g' : Global) × (l' : Local) × (frame_malloc os frame_malloc_global_init
        per_worker_init 1500
      ≡ some (mem, g', l'))
unfolding frame_malloc_roundup bucket_of_size
first_block =
    let r =
      frame_malloc_lem os frame_malloc_global_init per_worker_init 1500 2048 0 (omega arith) refl
        first-IsPool first-Ledger in
    (r.0, r.1, r.2, r.3)

in_use : Session os first_block.1 first_block.2 ((first_block.0, 1500) ∷ [])
in_use = allocate 1500 first_block.0 start (omega arith) first_block.3

cleanup_finds_leaks_example :
    ((chunks : List ℕ)
      → frame_malloc_global_cleanup (per_worker_cleanup first_block.1 first_block.2).0
        ≡ clean chunks
      → ◌≡◌ {A = List (ℕ × ℕ)} ((first_block.0, 1500) ∷ []) [])
    × (◌≡◌ {A = List (ℕ × ℕ)} ((first_block.0, 1500) ∷ []) []
        → frame_malloc_global_cleanup (per_worker_cleanup first_block.1 first_block.2).0 ≢ leaked)
unfolding frame_malloc_roundup bucket_of_size
cleanup_finds_leaks_example = cleanup_finds_leaks in_use (omega arith)
