-- ===== src/DequePool.antt =====
-- The pools of suspended and resumable deques: cilk-l/runtime/deque_pool.h and deque_pool.c. A pool
-- is a vector of pointers, and each deque in it knows its position and its worker.
pub mod Bag
pub mod Add
pub mod Remove
mod Tests
use cilk_l.Prelude.{
  ℕ, zero, suc, ◌+◌, ◌-◌, ◌*◌, ◌≡◌, Bool, true, false, not, ◌&&◌, Option, none, some, ltb, leb,
  ◌==◌, if◌then◌else◌, update, Outcome, abort, check, deref, fault, in_bounds, is_some, ok, ◌>>=◌,
  ◌>>◌,
}

-- `deque.self`: a position, ACTIVE_DEQUE_INDEX (-1) or INVALID_DEQUE_INDEX (-2).
pub data Index : Type 0 where
  at : ℕ → Index
  active : Index
  invalid : Index

-- The fields of a deque that the pools use. A worker is its number.
pub record Item : Type 0 where
  pub self : Index
  pub worker : Option ℕ
  pub resumable : Bool

-- `array` has `capacity` cells; a null pointer is `none`.
pub record Pool : Type 0 where
  pub array : ℕ → Option ℕ
  pub size : ℕ
  pub capacity : ℕ

-- A pool and the deques that there are, by their addresses.
pub record State : Type 0 where
  pub pool : Pool
  pub items : ℕ → Item

abbrev pub holds : Option ℕ → ℕ → Bool
holds none d = false
holds (some e) d = e == d

abbrev pub same : Bool → Bool → Bool
same true b = b
same false b = not b

-- The first `n` cells of an array hold no null pointer.
pub all_set : (ℕ → Option ℕ) → ℕ → Bool
all_set a zero = true
all_set a (suc n) = is_some (a n) && all_set a n

-- What the calls find in their surroundings: the worker that runs, who owns each worker's lock, and
-- what `__cilkrts_malloc` returns for an array of so many cells, by what the cells hold.
pub record Env : Type 0 where
  pub tls_worker : ℕ
  pub lock_owner : ℕ → Option ℕ
  pub malloc : ℕ → Option (ℕ → Option ℕ)

pub resize : Env → Pool → ℕ → Outcome Pool
resize env p cap = elim (env.malloc cap) [
  | none ↦ abort
  | some cells ↦ do
    in_bounds (ltb p.size cap)
    ok (record {
      array = update (λ i. if ltb i p.size then p.array i else cells i) p.size none;
      size = p.size;
      capacity = cap;
    })
]

unfoldable pub deque_pool_init : Env → ℕ → Outcome Pool
unfolding resize
deque_pool_init env ltqsize =
    resize env (record { array = λ _. none; size = 0; capacity = ltqsize }) ltqsize

unfoldable pub deque_pool_validate : Env → Pool → Option ℕ → Outcome (Unit {0})
unfolding all_set
deque_pool_validate env p w = do
  owner ← deref w
  check (is_some (env.lock_owner owner))
  check (all_set p.array p.size)

-- The growth step of `deque_pool_add`, where the pool is full.
pub make_room : Env → Pool → Outcome Pool
unfolding resize
make_room env p = if p.size == p.capacity then resize env p (2 * p.capacity) else ok p

-- `resumable` says which of the victim's pools the pool of `s` is.
pub deque_pool_add : Env → ℕ → Bool → ℕ → State → Outcome State
deque_pool_add env victim resumable d s = do
  check (holds (env.lock_owner victim) env.tls_worker)
  check (same (s.items d).resumable resumable)
  p ← make_room env s.pool
  let item = record (s.items d) { self = at p.size; worker = some victim }
  in_bounds (ltb p.size p.capacity)
  let p' = record p { array = update p.array p.size (some d); size = p.size + 1 }
  check (leb p'.size p'.capacity)
  deque_pool_validate env p' (some victim)
  ok (record { pool = p'; items = update s.items d item })

abbrev pub position : Index → Outcome ℕ
position (at i) = ok i
position active = abort
position invalid = abort

pub deque_pool_remove : Env → ℕ → State → Outcome State
deque_pool_remove env d s = do
  i ← position (s.items d).self
  check (ltb i s.pool.size)
  check (holds (s.pool.array i) d)
  let last = s.pool.size - 1
  let array = update s.pool.array i (s.pool.array last)
  moved ← deref (array last)
  let items = update s.items moved (record (s.items moved) { self = at i })
  let p = record s.pool { array = update array last none; size = last }
  let item = record (items d) { self = invalid }
  deque_pool_validate env p item.worker
  ok (record { pool = p; items = update items d (record item { worker = none }) })
