-- ===== src/ReducerMap.antt =====
-- The reducer maps of cilk-l/runtime/reducer_impl.cpp: hash tables from the key of a hyperobject to a
-- strand's view of it. Keys, views and bases of hyperobjects are addresses, and 0 is the null pointer.
-- An array is a function, and a read or a write outside it is a fault.
pub mod Hash
pub mod Buckets
pub mod Table
pub mod Insert
pub mod Rehash
pub mod Merge
pub mod Hyper
pub mod Serial
mod Tests
use Prim.Native.Nat.{bit_and, bit_xor}
use cilk_l.Prelude.{
  ℕ, zero, suc, ◌+◌, ◌-◌, ◌*◌, ◌/◌, ◌^◌, Bool, true, false, not, Option, none, some, List, [], ◌∷◌,
  ◌++◌, length, replicate, set, ltb, leb, ◌==◌, if◌then◌else◌, update, Outcome, ok, abort, fault,
  ◌>>=◌, ◌>>◌, check, in_bounds,
}
use cilk_l.FrameMalloc.{frame_malloc_roundup}

-- `struct elem`
pub record Elem : Type 0 where
  pub key : ℕ
  pub hb : ℕ
  pub view : ℕ

abbrev pub null_elem : Elem
null_elem = record { key = 0; hb = 0; view = 0 }

-- `struct bucket`: `el` has `nmax` elements and one that ends it, whose key is null. The other fields
-- of an element with a null key are never read.
pub record Bucket : Type 0 where
  pub nmax : ℕ
  pub el : List Elem

-- `struct cilkred_map`
pub record ReducerMap : Type 0 where
  pub nelem : ℕ
  pub nbuckets : ℕ
  pub buckets : ℕ → Option Bucket
  pub merging : Bool
  pub is_leftmost : Bool

-- An `elem *` into a bucket of a map, with what it points to.
pub record Place : Type 0 where
  pub bucket : ℕ
  pub index : ℕ
  pub elem : Elem

-- The sizes of the structures on a 64-bit machine: 32 bytes for a bucket of one element, 24 for each.
abbrev pub sizeof_bucket : ℕ → ℕ
sizeof_bucket nmax = 32 + nmax * 24

-- The elements that fill up the block of memory that `nmax` elements get.
pub roundup : ℕ → Outcome ℕ
roundup nmax = elim (frame_malloc_roundup (sizeof_bucket nmax)) [
  | none ↦ abort
  | some sz ↦ ok ((sz - 32) / 24)
]

pub is_power_of_2 : ℕ → Bool
is_power_of_2 n = bit_and n (n - 1) == 0

pub make_buckets : ℕ → ReducerMap → Outcome ReducerMap
make_buckets new_nbuckets h = do
  check (is_power_of_2 new_nbuckets)
  ok (record h { nbuckets = new_nbuckets; buckets = λ i. none; nelem = 0 })

abbrev pub minsz : ℕ → ℕ
minsz nelem = 1 + nelem + nelem / 8

abbrev pub nextsz : ℕ → ℕ
nextsz nelem = 2 * nelem

abbrev pub need_rehash_p : ReducerMap → Bool
need_rehash_p h = ltb h.nbuckets (minsz h.nelem)

-- `k ^= k >> 21; k ^= k >> 8; k ^= k >> 3`
pub scramble : ℕ → ℕ
scramble key =
    let k = bit_xor key (key / 2 ^ 21) in let l = bit_xor k (k / 2 ^ 8) in bit_xor l (l / 2 ^ 3)

pub hashfun : ℕ → ℕ → ℕ
hashfun nbuckets key = bit_and (scramble key) (nbuckets - 1)

-- The first of the first `n` elements with a null key.
pub find_empty : ℕ → List Elem → Option ℕ
find_empty zero es = none
find_empty (suc n) [] = none
find_empty (suc n) (e ∷ es) =
    if e.key == 0 then some 0 else elim (find_empty n es) [ none ↦ none | some i ↦ some (suc i) ]

-- `n` elements, read from the front.
abbrev pub copy : ℕ → List Elem → List Elem
copy zero es = []
copy (suc n) [] = []
copy (suc n) (e ∷ es) = e ∷ copy n es

-- A new bucket with the elements of one of `nmax` elements.
pub enlarge : ℕ → List Elem → Outcome (Bucket × ℕ)
enlarge nmax es = do
  nnmax ← roundup (2 * nmax)
  ok (record { nmax = nnmax; el = copy nmax es ++ replicate (suc nnmax - nmax) null_elem }, nmax)

-- The bucket, grown if need be, and the index of an element that is free.
pub grow : Option Bucket → Outcome (Bucket × ℕ)
grow none = enlarge 0 []
grow (some b) = elim (find_empty b.nmax b.el) [ some i ↦ ok (b, i) | none ↦ enlarge b.nmax b.el ]

abbrev pub write : Bucket → ℕ → Elem → Outcome Bucket
write b i e = in_bounds (ltb i (length b.el)) >> ok (record b { el = set b.el i e })

pub insert_no_rehash : Elem → ReducerMap → Outcome (ReducerMap × Place)
insert_no_rehash e h = do
  check (not (e.key == 0))
  check (not (e.view == 0))
  let i = hashfun h.nbuckets e.key
  in_bounds (ltb i h.nbuckets)
  (b, j) ← grow (h.buckets i)
  b' ← write b j e
  ok (
    record h { buckets = update h.buckets i (some b'); nelem = h.nelem + 1 },
    record { bucket = i; index = j; elem = e },
  )

-- The loop over the elements of a bucket in `rehash`.
pub reinsert : List Elem → ReducerMap → Outcome ReducerMap
reinsert [] h = fault
reinsert (e ∷ es) h =
    let rest = insert_no_rehash e h >>= λ (h', _). reinsert es h' in
    if e.key == 0 then ok h else rest

-- The loop over `n` buckets from `i` on.
pub reinsert_all : (ℕ → Option Bucket) → ℕ → ℕ → ReducerMap → Outcome ReducerMap
reinsert_all buckets i zero h = ok h
reinsert_all buckets i (suc n) h = elim (buckets i) [
  | none ↦ reinsert_all buckets (suc i) n h
  | some b ↦ reinsert b.el h >>= λ h'. reinsert_all buckets (suc i) n h'
]

pub rehash : ReducerMap → Outcome ReducerMap
rehash h = do
  fresh ← make_buckets (nextsz h.nbuckets) h
  h' ← reinsert_all h.buckets 0 h.nbuckets fresh
  check (h'.nelem == h.nelem)
  ok h'

pub rehash_and_insert : Elem → ReducerMap → Outcome (ReducerMap × Place)
rehash_and_insert e h =
    if need_rehash_p h then (rehash h >>= λ h'. insert_no_rehash e h') else insert_no_rehash e h

-- The loop of `lookup` over the elements of bucket `b`, from index `i` on.
pub search_bucket : ℕ → ℕ → ℕ → List Elem → Outcome (Option Place)
search_bucket key b i [] = fault
search_bucket key b i (e ∷ es) =
    let rest = search_bucket key b (suc i) es in
    let found =
      check (not (e.view == 0)) >> ok (some (record { bucket = b; index = i; elem = e })) in
    if e.key == 0 then ok none else (if e.key == key then found else rest)

pub lookup : ℕ → ReducerMap → Outcome (Option Place)
lookup key h =
    let i = hashfun h.nbuckets key in
    in_bounds (ltb i h.nbuckets)
    >> (elim (h.buckets i) [ none ↦ ok none | some b ↦ search_bucket key i 0 b.el ])

pub make_reducer_map : Outcome ReducerMap
make_reducer_map =
    make_buckets 1 (record {
      nelem = 0;
      nbuckets = 0;
      buckets = λ i. none;
      merging = false;
      is_leftmost = false;
    })
