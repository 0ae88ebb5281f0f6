-- ===== src/ReducerMap/Buckets.antt =====
-- One bucket: the elements before the first null key, and what the operations do to them.
use cilk_l.Prelude.{
  ℕ, zero, suc, ◌-◌, ◌*◌, ◌/◌, ◌≤◌, ◌<◌, ◌≡◌, ◌≢◌, ◌⊎◌, refl, ap, ◌∙◌, inl, inr, Option, none, some,
  List, [], ◌∷◌, ◌++◌, length, replicate, set, arith, lt→ltb, ◌==◌, if◌then◌else◌, length-set,
  length-append, length-replicate, Option-cases, Outcome, ok,
}
use cilk_l.FrameMalloc.{frame_malloc_roundup, bucket_of_size}
use cilk_l.FrameMalloc.Buckets.{frame_malloc_roundup_lem}
use cilk_l.ReducerMap.{
  Elem, null_elem, Bucket, sizeof_bucket, roundup, find_empty, copy, enlarge, grow, write,
}

-- The elements of an array before the first null key.
unfoldable pub used : List Elem → List Elem
used [] = []
used (e ∷ es) = if e.key == 0 then [] else e ∷ used es

unfoldable pub AllNull : List Elem → Type 0
AllNull [] = 0 ≤ 0
AllNull (e ∷ es) = (e.key ≡ 0) × AllNull es

-- A null key ends the elements, and all behind it are null.
unfoldable pub IsEnded : List Elem → Type 0
IsEnded [] = 1 ≤ 0
IsEnded (e ∷ es) = ((e.key ≡ 0) × AllNull es) ⊎ ((e.key ≢ 0) × IsEnded es)

pub record IsBucket (b : Bucket) : Type 0 where
  pub sized : length b.el ≡ suc b.nmax
  pub ended : IsEnded b.el

-- The elements of a bucket that may not be there yet.
abbrev pub contents : Option Bucket → List Elem
contents none = []
contents (some b) = used b.el

abbrev pub IsBucket? : Option Bucket → Type 0
IsBucket? none = 0 ≤ 0
IsBucket? (some b) = IsBucket b

used-AllNull : (es : List Elem) → AllNull es → used es ≡ []
unfolding used AllNull
used-AllNull [] h = refl
used-AllNull (e ∷ es) h = ground arith

replicate-AllNull : (n : ℕ) → AllNull (replicate n null_elem)
unfolding AllNull
replicate-AllNull zero = omega arith
replicate-AllNull (suc n) = (refl, replicate-AllNull n)

-- A free slot that is not the last one is taken.
find_empty-some :
    (n i : ℕ) (es : List Elem) (e : Elem)
    → find_empty n es ≡ some i
    → length es ≡ suc n
    → IsEnded es
    → e.key ≢ 0
    → (i < length es)
      × (used (set es i e) ≡ used es ++ e ∷ [])
      × IsEnded (set es i e)
      × (length (used es) ≡ i)
unfolding find_empty used AllNull IsEnded
find_empty-some zero i es e found len ended ne = cc
find_empty-some (suc n) i [] e found len ended ne = absurd (omega arith)
find_empty-some (suc n) i (x ∷ []) e found len ended ne = absurd (omega arith)
find_empty-some (suc n) zero (x ∷ y ∷ es) e found len (inl (z, (y0, all))) ne =
    let first : used (x ∷ y ∷ es) ≡ [] = ground arith in
    let second : used (y ∷ es) ≡ [] = ground arith in
    (omega arith, ground (arith, second), inr (ne, inl (y0, all)), ap length first)
find_empty-some (suc n) (suc i) (x ∷ y ∷ es) e found len (inl (z, (y0, all))) ne =
    absurd (ground arith)
find_empty-some (suc n) zero (x ∷ y ∷ es) e found len (inr (nz, ended)) ne = absurd (ground arith)
find_empty-some (suc n) (suc i) (x ∷ y ∷ es) e found len (inr (nz, ended)) ne =
    let found' : find_empty n (y ∷ es) ≡ some i = ground arith in
    let (inside, same, ended', count) =
      find_empty-some n i (y ∷ es) e found' (omega arith) ended ne in
    (omega arith, ground (arith, same), inr (nz, ended'), ground (arith, count))

-- The first `n` keys are not null.
IsFull : ℕ → List Elem → Type 0
IsFull zero es = 0 ≤ 0
IsFull (suc n) [] = 1 ≤ 0
IsFull (suc n) (e ∷ es) = (e.key ≢ 0) × IsFull n es

-- A bucket with no free slot is used up to its last element.
find_empty-none :
    (n : ℕ) (es : List Elem)
    → find_empty n es ≡ none
    → length es ≡ suc n
    → IsEnded es
    → (used es ≡ copy n es) × IsFull n es
unfolding find_empty used AllNull IsEnded IsFull
find_empty-none zero (x ∷ []) found len ended = ground arith
find_empty-none zero [] found len ended = absurd (omega arith)
find_empty-none zero (x ∷ y ∷ es) found len ended = absurd (omega arith)
find_empty-none (suc n) [] found len ended = absurd (omega arith)
find_empty-none (suc n) (x ∷ es) found len (inl (z, all)) = absurd (ground arith)
find_empty-none (suc n) (x ∷ es) found len (inr (nz, ended)) =
    let found' : find_empty n es ≡ none = ground arith in
    let (same, full) = find_empty-none n es found' (omega arith) ended in
    (ground (arith, same), (nz, full))

-- The elements of a full bucket, and one more, in an array that has room.
write_behind :
    (n : ℕ) (es : List Elem) (y z : Elem) (zs : List Elem) (e : Elem)
    → IsFull n es
    → e.key ≢ 0
    → AllNull (z ∷ zs)
    → (used (set (copy n es ++ y ∷ z ∷ zs) n e) ≡ copy n es ++ e ∷ [])
      × IsEnded (set (copy n es ++ y ∷ z ∷ zs) n e)
      × (length (copy n es) ≡ n)
unfolding used AllNull IsEnded IsFull
write_behind zero es y z zs e full ne (z0, all) = (ground arith, inr (ne, inl (z0, all)), refl)
write_behind (suc n) [] y z zs e full ne all = absurd (omega arith)
write_behind (suc n) (x ∷ es) y z zs e (nz, full) ne all =
    let (same, ended, len) = write_behind n es y z zs e full ne all in
    (ground (arith, same), inr (nz, ended), ap suc len)

-- The allocator's smallest block makes room for one element, and a bucket that grows doubles at least.
roundup-zero : roundup 0 ≡ ok 1
unfolding roundup frame_malloc_roundup bucket_of_size
roundup-zero = refl

roundup_lem : (n : ℕ) → (r : ℕ) × (roundup n ≡ ok r) × (n ≤ r) × (1 ≤ r)
unfolding roundup
roundup_lem zero = (1, roundup-zero, omega arith, omega arith)
roundup_lem (suc n) =
    let (sz, e, le, _, _) = frame_malloc_roundup_lem (sizeof_bucket (suc n)) in
    ((sz - 32) / 24, rw (roundup, e) refl, omega arith, omega arith)

-- What a free slot is good for: writing there gives a bucket with one more element at the end.
abbrev pub Grown : List Elem → Elem → Outcome (Bucket × ℕ) → Type 0
Grown us e grown =
    (b : Bucket) × (j : ℕ) × (b' : Bucket) × (grown ≡ ok (b, j))
    × (write b j e ≡ ok b')
    × IsBucket b'
    × (used b'.el ≡ us ++ e ∷ [])
    × (length us ≡ j)

enlarge-Grown :
    (n : ℕ) (es : List Elem) (e : Elem)
    → IsFull n es
    → e.key ≢ 0
    → Grown (copy n es) e (enlarge n es)
unfolding enlarge
enlarge-Grown n es e full ne =
    let (r, fits, twice, least) = roundup_lem (2 * n) in
    let k = r - n - 1 in
    let room : suc r - n ≡ suc (suc k) = omega arith in
    let (same, ended, len) =
      write_behind n es null_elem null_elem (replicate k null_elem) e full ne
        (replicate-AllNull (suc k)) in
    let el = copy n es ++ null_elem ∷ null_elem ∷ replicate k null_elem in
    let total : length el ≡ suc r = omega (
      arith,
      length-append (copy n es) (null_elem ∷ null_elem ∷ replicate k null_elem),
      length-replicate k null_elem,
    ) in
    let b : Bucket = record { nmax = r; el = el } in
    let b' : Bucket = record { nmax = r; el = set el n e } in
    (
      b,
      n,
      b',
      rw (fits, room) refl,
      rw (lt→ltb n (length el) (omega arith)) refl,
      record { sized = length-set el n e ∙ total; ended = ended },
      same,
      len,
    )

grow-full : (b : Bucket) → find_empty b.nmax b.el ≡ none → grow (some b) ≡ enlarge b.nmax b.el
unfolding grow
grow-full b e = rw (grow, e) refl

grow-free : (b : Bucket) (j : ℕ) → find_empty b.nmax b.el ≡ some j → grow (some b) ≡ ok (b, j)
unfolding grow
grow-free b j e = rw (grow, e) refl

-- `grow` gives a free slot of a bucket with the same elements.
pub grow-Grown :
    (b : Option Bucket) (e : Elem) → IsBucket? b → e.key ≢ 0 → Grown (contents b) e (grow b)
grow-Grown none e wf ne = unfold IsFull grow in enlarge-Grown 0 [] e (omega arith) ne
grow-Grown (some b) e wf ne = elim (Option-cases (find_empty b.nmax b.el)) [
  | inl full ↦
      let (same, is_full) = find_empty-none b.nmax b.el full wf.sized wf.ended in
      rw (grow-full b full, same) (enlarge-Grown b.nmax b.el e is_full ne)
  | inr (j, free) ↦
      let (inside, same, ended, len) = find_empty-some b.nmax j b.el e free wf.sized wf.ended ne in
      (
        b,
        j,
        record b { el = set b.el j e },
        grow-free b j free,
        rw (lt→ltb j (length b.el) inside) refl,
        record { sized = length-set b.el j e ∙ wf.sized; ended = ended },
        same,
        len,
      )
]
