-- ===== src/FrameMalloc.antt =====
-- The frame allocator: cilk-l/runtime/frame_malloc.h and frame_malloc.c, with the table of bucket
-- sizes of the systems other than Windows. An intrusive list of free blocks is the list of their
-- addresses. Sums of `size_t` wrap. The address of the n-th chunk that `__cilkrts_malloc` returns is
-- a parameter; what it returns for a block that is too large for the buckets is outside the model.
pub mod Buckets
pub mod Ledger
pub mod Malloc
pub mod Free
pub mod Leaks
mod Tests
use cilk_l.Prelude.{
  ℕ, zero, suc, ◌+◌, ◌-◌, ◌*◌, ◌%◌, ◌^◌, ◌≡◌, Bool, true, false, not, ◌&&◌, Option, none, some,
  List, [], ◌∷◌, ◌++◌, length, ltb, leb, ◌==◌, if◌then◌else◌, update, get_elem?, total,
}

abbrev pub nbuckets : ℕ
nbuckets = 6

abbrev pub max_size : ℕ
max_size = 2048

-- FRAME_MALLOC_CHUNK
abbrev pub chunk : ℕ
chunk = 32 * 1024 - 128

abbrev pub bucket_sizes : List ℕ
bucket_sizes = 64 ∷ 128 ∷ 256 ∷ 512 ∷ 1024 ∷ 2048 ∷ []

-- The table read at a bucket; behind the table nothing is read, since every caller tests the bucket.
abbrev pub entry : List ℕ → ℕ → ℕ
entry ss b = elim (get_elem? ss b) [ none ↦ 0 | some size ↦ size ]

abbrev pub bucket_to_size : ℕ → ℕ
bucket_to_size b = entry bucket_sizes b

abbrev pub add_size : ℕ → ℕ → ℕ
add_size a b = (a + b) % 2 ^ 64

abbrev pub sub_size : ℕ → ℕ → ℕ
sub_size a b = (a + 2 ^ 64 - b) % 2 ^ 64

-- `__cilkrts_frame_cache` of the global state.
pub record Global : Type 0 where
  pub pool_list : List ℕ
  pub pool_begin : ℕ
  pub pool_end : ℕ
  pub global_free_list : ℕ → List ℕ
  pub batch_size : ℕ
  pub potential_limit : ℕ
  pub allocated_from_os : ℕ
  pub allocated_from_global_pool : ℕ
  pub wasted : ℕ
  pub check_for_leaks : Bool

-- The allocator's part of a worker's `local_state`.
pub record Local : Type 0 where
  pub free_list : ℕ → List ℕ
  pub bucket_potential : ℕ → ℕ

-- The loop of `bucket_of_size` over what is left of the table; `none` is the failed assertion.
pub scan_buckets : List ℕ → ℕ → ℕ → Option ℕ
scan_buckets [] i size = none
scan_buckets (s ∷ ss) i size = if leb size s then some i else scan_buckets ss (i + 1) size

unfoldable pub bucket_of_size : ℕ → Option ℕ
unfolding scan_buckets
bucket_of_size size = scan_buckets bucket_sizes 0 size

unfoldable pub frame_malloc_roundup : ℕ → Option ℕ
frame_malloc_roundup size =
    if ltb max_size size
    then some size
    else elim (bucket_of_size size) [ none ↦ none | some b ↦ some (bucket_to_size b) ]

unfoldable pub size_of_bucket : ℕ → Option ℕ
size_of_bucket b = if ltb b nbuckets then some (bucket_to_size b) else none

unfoldable pub frame_malloc_global_init : Global
frame_malloc_global_init = record {
  pool_list = [];
  pool_begin = 0;
  pool_end = 0;
  global_free_list = λ b. [];
  batch_size = 8000;
  potential_limit = 4 * 8000;
  allocated_from_os = 0;
  allocated_from_global_pool = 0;
  wasted = 0;
  check_for_leaks = true;
}

unfoldable pub per_worker_init : Local
per_worker_init = record { free_list = λ b. []; bucket_potential = λ b. 0 }

-- `size` is the bucket's size.
pub global_free : Global → ℕ → ℕ → ℕ → Global
global_free g mem b size = record g {
  allocated_from_global_pool = sub_size g.allocated_from_global_pool size;
  global_free_list = update g.global_free_list b (mem ∷ g.global_free_list b);
}

-- The blocks of a list, the first one first.
pub free_all : Global → List ℕ → ℕ → ℕ → Global
free_all g [] b size = g
free_all g (q ∷ qs) b size = free_all (global_free g q b size) qs b size

-- `os n` is the address of the n-th chunk that the system gives.
module _ (os : ℕ → ℕ) where
  pub extend_global_pool : Global → Global
  extend_global_pool g =
      let p = os (length g.pool_list) in
      record g {
        pool_begin = p;
        pool_end = p + chunk;
        allocated_from_os = add_size g.allocated_from_os chunk;
        pool_list = p ∷ g.pool_list;
      }

  -- A block cut off the pool, which is extended first if it is too small.
  pub carve : Global → ℕ → Option (ℕ × Global)
  unfolding extend_global_pool
  carve g size =
      if leb g.pool_begin g.pool_end
      then (let g' =
            if ltb g.pool_end (g.pool_begin + size)
            then extend_global_pool
                (record g { wasted = add_size g.wasted (g.pool_end - g.pool_begin) })
            else g in
          some (g'.pool_begin, record g' { pool_begin = g'.pool_begin + size }))
      else none

  pub global_alloc : Global → ℕ → Option (ℕ × Global)
  global_alloc g b =
      let size = bucket_to_size b in
      let g' = record g {
        allocated_from_global_pool = add_size g.allocated_from_global_pool size;
      } in
      if ltb b nbuckets
      then elim (g.global_free_list b) [
        | [] ↦ carve g' size
        | mem ∷ rest ↦ some (mem, record g' { global_free_list = update g.global_free_list b rest })
      ]
      else none

  -- The loop of `allocate_batch`, on fuel; `none` is a failed assertion or fuel that ran out.
  pub batch_loop : ℕ → Global → Local → ℕ → ℕ → Option (Global × Local)
  batch_loop zero g l b bytes = none
  batch_loop (suc fuel) g l b bytes =
      let size = bucket_to_size b in
      elim (global_alloc g b) [
        | none ↦ none
        | some (mem, g') ↦
            let l' : Local = record {
              bucket_potential = update l.bucket_potential b (add_size (l.bucket_potential b) size);
              free_list = update l.free_list b (mem ∷ l.free_list b);
            } in
            let rest = batch_loop fuel g' l' b (bytes + size) in
            if ltb (bytes + size) g.batch_size then rest else some (g', l')
      ]

  -- Each round takes a block of at least one byte.
  pub allocate_batch : Global → Local → ℕ → Option (Global × Local)
  allocate_batch g l b = batch_loop (suc g.batch_size) g l b 0

  -- The loop `while (!(mem = pop(...))) allocate_batch(...)`, on fuel.
  pub pop_loop : ℕ → Global → Local → ℕ → Option (ℕ × Global × Local)
  pop_loop zero g l b = none
  pop_loop (suc fuel) g l b = elim (l.free_list b) [
    | mem ∷ rest ↦ some (mem, g, record l { free_list = update l.free_list b rest })
    | [] ↦ elim (allocate_batch g l b) [ none ↦ none | some (g', l') ↦ pop_loop fuel g' l' b ]
  ]

  -- `__cilkrts_frame_malloc` for a worker and a size that the buckets hold.
  pub frame_malloc : Global → Local → ℕ → Option (ℕ × Global × Local)
  frame_malloc g l size = elim (bucket_of_size size) [ none ↦ none | some b ↦ pop_loop 2 g l b ]

-- The loop of `gc_bucket` that walks over the blocks it keeps: the new potential, the blocks passed,
-- and those from `p` on. The products are of `size_t`.
pub gc_walk : ℕ → ℕ → ℕ → List ℕ → ℕ × List ℕ × List ℕ
gc_walk pot size newpot [] = (newpot, [], [])
gc_walk pot size newpot (p ∷ ps) =
    if ltb (2 * newpot % 2 ^ 64) pot
    then (let (n, passed, rest) = gc_walk pot size (add_size newpot size) ps in
        (n, p ∷ passed, rest))
    else (newpot, [], p ∷ ps)

unfoldable pub gc_bucket : Global → Local → ℕ → ℕ → Global × Local
unfolding gc_walk
gc_bucket g l b size =
    let (newpot, passed, rest) = gc_walk (l.bucket_potential b) size 0 (l.free_list b) in
    let potential = update l.bucket_potential b newpot in
    elim rest [
      | [] ↦ (g, record l { bucket_potential = potential })
      | p ∷ ps ↦ (
        free_all g ps b size,
        record {
          bucket_potential = potential;
          free_list = update l.free_list b (passed ++ (p ∷ []));
        },
      )
    ]

-- `__cilkrts_frame_free` for a worker and a size that the buckets hold.
pub frame_free : Global → Local → ℕ → ℕ → Option (Global × Local)
frame_free g l p size = elim (bucket_of_size size) [
  | none ↦ none
  | some b ↦
      let bs = bucket_to_size b in
      let l' : Local = record {
        bucket_potential = update l.bucket_potential b (add_size (l.bucket_potential b) bs);
        free_list = update l.free_list b (p ∷ l.free_list b);
      } in
      some (if ltb g.potential_limit (l'.bucket_potential b) then gc_bucket g l' b bs else (g, l'))
]

-- The pops run through a local copy of the list's head: `free_list[bucket]` still points at its first
-- block, which is now linked to what the global list was.
pub move_bucket_to_global_free_list : Global → Local → ℕ → Global × Local
move_bucket_to_global_free_list g l b =
    let potential = update l.bucket_potential b 0 in
    elim (l.free_list b) [
      | [] ↦ (g, record l { bucket_potential = potential })
      | q ∷ qs ↦ (
        free_all g (q ∷ qs) b (bucket_to_size b),
        record {
          bucket_potential = potential;
          free_list = update l.free_list b (q ∷ g.global_free_list b);
        },
      )
    ]

-- The loop of `__cilkrts_frame_malloc_per_worker_cleanup` over the first `n` buckets.
pub cleanup_buckets : ℕ → Global → Local → Global × Local
cleanup_buckets zero g l = (g, l)
cleanup_buckets (suc n) g l =
    let (g', l') = cleanup_buckets n g l in move_bucket_to_global_free_list g' l' n

unfoldable pub per_worker_cleanup : Global → Local → Global × Local
unfolding cleanup_buckets
per_worker_cleanup g l = cleanup_buckets nbuckets g l

unfoldable pub count_memory_in_global_list : Global → ℕ
count_memory_in_global_list g =
    total nbuckets (λ b. length (g.global_free_list b) * bucket_to_size b) % 2 ^ 64

-- How `__cilkrts_frame_malloc_global_cleanup` ends, with the chunks that it gave back.
pub data Cleanup : Type 0 where
  clean : List ℕ → Cleanup
  corrupted : Cleanup
  leaked : Cleanup

unfoldable pub frame_malloc_global_cleanup : Global → Cleanup
unfolding count_memory_in_global_list
frame_malloc_global_cleanup g =
    if g.check_for_leaks && ltb g.allocated_from_os (count_memory_in_global_list g)
    then corrupted
    else (if g.check_for_leaks && not (g.allocated_from_global_pool == 0)
        then leaked
        else clean g.pool_list)
