-- ===== src/FrameMalloc/Buckets.antt =====
-- Which bucket serves a size: `bucket_of_size` and `__cilkrts_frame_malloc_roundup` of
-- cilk-l/runtime/frame_malloc.c.
use cilk_l.Prelude.{
  ℕ, zero, suc, ◌+◌, ◌*◌, ◌≤◌, ◌<◌, ◌≡◌, refl, ◌⊎◌, inl, inr, some, List, [], ◌∷◌, length, arith,
  sym, Bool-cases, leb, lt→ltb, dec_lt,
}
use mathlib.Core.Path.{subst}
use cilk_l.FrameMalloc.{
  entry, bucket_sizes, scan_buckets, nbuckets, max_size, bucket_to_size, bucket_of_size,
  frame_malloc_roundup, size_of_bucket,
}

scan_buckets-some :
    (ss : List ℕ) (i size k : ℕ)
    → k < length ss
    → size ≤ entry ss k
    → (b : ℕ) × (scan_buckets ss i size ≡ some b)
unfolding scan_buckets
scan_buckets-some [] i size k lt le = absurd (omega arith)
scan_buckets-some (s ∷ ss) i size zero lt le = (i, ground arith)
scan_buckets-some (s ∷ ss) i size (suc k) lt le = elim (Bool-cases (leb size s)) [
  | inl here ↦ (i, rw here)
  | inr on ↦ rw on (scan_buckets-some ss (i + 1) size k (omega arith) le)
]

-- The first entry that holds the size.
record Found (ss : List ℕ) (i size b : ℕ) : Type 0 where
  offset : ℕ
  at_offset : b ≡ i + offset
  in_table : offset < length ss
  holds : size ≤ entry ss offset
  first : (c : ℕ) → c < offset → entry ss c < size

scan_buckets-Found :
    (ss : List ℕ) (i size b : ℕ) → scan_buckets ss i size ≡ some b → Found ss i size b
unfolding scan_buckets
scan_buckets-Found [] i size b e = absurd (ground arith)
scan_buckets-Found (s ∷ ss) i size b e = elim (Bool-cases (leb size s)) [
  | inl here ↦ record {
    offset = 0;
    at_offset = ground arith;
    in_table = omega arith;
    holds = ground arith;
    first = λ c lt. absurd (omega arith);
  }
  | inr on ↦
      let f = scan_buckets-Found ss (i + 1) size b (ground arith) in
      record {
        offset = suc f.offset;
        at_offset = omega (arith, f.at_offset);
        in_table = omega (arith, f.in_table);
        holds = f.holds;
        first = elim [ zero ↦ λ lt. ground arith | suc c ↦ λ lt. f.first c (omega arith) ];
      }
]

-- For a size up to 2048 bytes `bucket_of_size` returns the smallest bucket that holds it: the bucket
-- is in the table, its blocks are large enough, and those of each smaller bucket are not.
pub bucket_of_size_lem :
    (size : ℕ)
    → size ≤ max_size
    → (b : ℕ) × (bucket_of_size size ≡ some b)
      × (b < nbuckets)
      × (size ≤ bucket_to_size b)
      × ((c : ℕ) → c < b → bucket_to_size c < size)
unfolding bucket_of_size
bucket_of_size_lem size h =
    let (b, e) = scan_buckets-some bucket_sizes 0 size 5 (omega arith) h in
    let f = scan_buckets-Found bucket_sizes 0 size b e in
    let same : b ≡ f.offset = omega (arith, f.at_offset) in
    (
      b,
      e,
      omega (arith, f.in_table),
      subst (λ k. size ≤ bucket_to_size k) (sym same) f.holds,
      λ c lt. f.first c (omega arith),
    )

sizes-double : (c : ℕ) → suc c < nbuckets → bucket_to_size (suc c) ≡ 2 * bucket_to_size c
sizes-double zero h = refl
sizes-double (suc zero) h = refl
sizes-double (suc (suc zero)) h = refl
sizes-double (suc (suc (suc zero))) h = refl
sizes-double (suc (suc (suc (suc zero)))) h = refl
sizes-double (suc (suc (suc (suc (suc c))))) h = absurd (omega arith)

pub bucket_to_size_bounds :
    (b : ℕ) → b < nbuckets → (64 ≤ bucket_to_size b) × (bucket_to_size b ≤ max_size)
bucket_to_size_bounds zero h = omega arith
bucket_to_size_bounds (suc zero) h = omega arith
bucket_to_size_bounds (suc (suc zero)) h = omega arith
bucket_to_size_bounds (suc (suc (suc zero))) h = omega arith
bucket_to_size_bounds (suc (suc (suc (suc zero)))) h = omega arith
bucket_to_size_bounds (suc (suc (suc (suc (suc zero))))) h = omega arith
bucket_to_size_bounds (suc (suc (suc (suc (suc (suc b)))))) h = absurd (omega arith)

bucket-lt-double :
    (size b : ℕ)
    → b < nbuckets
    → ((c : ℕ) → c < b → bucket_to_size c < size)
    → (bucket_to_size b ≡ 64) ⊎ (bucket_to_size b < 2 * size)
bucket-lt-double size zero lt first = inl refl
bucket-lt-double size (suc c) lt first =
    inr (omega (arith, sizes-double c lt, first c (omega arith)))

-- `__cilkrts_frame_malloc_roundup` never fails and never gives less than was asked for. It leaves a
-- size above 2048 alone. Up to 2048 it gives the size of a bucket, 64 or less than twice the size.
pub frame_malloc_roundup_lem :
    (size : ℕ)
    → (r : ℕ) × (frame_malloc_roundup size ≡ some r)
      × (size ≤ r)
      × (max_size < size → r ≡ size)
      × (size ≤ max_size → ((b : ℕ) × (size_of_bucket b ≡ some r)) × ((r ≡ 64) ⊎ (r < 2 * size)))
unfolding frame_malloc_roundup size_of_bucket
frame_malloc_roundup_lem size = elim (dec_lt max_size size) [
  | yes large ↦
      (size, rw (lt→ltb max_size size large), omega arith, λ h. refl, λ h. absurd (omega arith))
  | no small ↦
      let (b, e, lt, le, first) = bucket_of_size_lem size (omega arith) in
      (
        bucket_to_size b,
        ground (arith, e),
        le,
        (λ h. absurd (small h)),
        λ h. ((b, rw (lt→ltb b nbuckets lt)), bucket-lt-double size b lt first),
      )
]
