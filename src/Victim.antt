-- ===== src/Victim.antt =====
-- The random choices of the scheduler: the generator of cilk-l/runtime/scheduler.c, the victim of
-- `random_steal`, the deque of `choose_deque`, and the worker that a suspended deque is given to by
-- `deque_suspend` of deque.c and `__cilkrts_make_resumable` of deque_pool.c.
-- A function that calls `myrand` takes the generator's state and returns the new one.
pub mod Generator
pub mod Choice
mod Tests
use cilk_l.Prelude.{
  ℕ, ◌+◌, ◌-◌, ◌*◌, ◌%◌, ◌^◌, Bool, true, false, not, ◌&&◌, ◌||◌, Option, none, some, ltb, leb,
  ◌==◌, if◌then◌else◌, Outcome, ok, abort, fault, ◌>>=◌, ◌>>◌, check, in_bounds, is_some,
}
use cilk_l.DequePool.{Pool, holds}

abbrev pub rngmod : ℕ
rngmod = 2 ^ 32 - 5

abbrev pub rngmul : ℕ
rngmul = 69070

-- The new state, which is also the number drawn. The product is of `unsigned long long`.
unfoldable pub myrand : ℕ → ℕ
myrand state = rngmul * state % 2 ^ 64 % rngmod

-- The state that a seed gives.
unfoldable pub mysrand : ℕ → ℕ
mysrand seed = let s = seed % rngmod in s + (if s == 0 then 1 else 0)

-- The fields of the global state that the choices read.
pub record Team : Type 0 where
  pub p : ℕ
  pub total_workers : ℕ
  pub io_normal : Bool

-- `n` in `random_steal`, by the size of the worker's own two pools together; `none` is the failed
-- assertion of a worker that is alone.
unfoldable pub pick_victim : Team → ℕ → ℕ → ℕ → Option (ℕ × ℕ)
unfolding myrand
pick_victim g self pooled seed =
    let s = myrand seed in
    let other = s % (g.total_workers - 1) in
    if g.p == 1
    then (if not g.io_normal || ltb 0 pooled then some (0, seed) else none)
    else some (
        if pooled == 0
        then ((if leb self other then other + 1 else other), s)
        else (s % g.total_workers, s))

-- What `choose_deque` reads of the victim.
pub record Victim : Type 0 where
  pub self : ℕ
  pub active_deque : Option ℕ
  pub suspended_deques : Pool
  pub resumable_deques : Pool

-- `index`, the pool it is for, and the generator's state.
unfoldable pub choose_index : ℕ → Victim → ℕ → ℕ × Pool × ℕ
unfolding myrand
choose_index w victim seed =
    let s = myrand seed in
    let n = victim.suspended_deques.size in
    if ltb 0 victim.resumable_deques.size
    then (victim.resumable_deques.size, victim.resumable_deques, seed)
    else (if (w == victim.self) && ltb 0 n
        then (s % n + 1, victim.suspended_deques, s)
        else (s % (n + 1), victim.suspended_deques, s))

-- The assertions for a worker that has chosen itself and has no deque in the pool.
abbrev pub check_mugged : Team → Bool → Pool → Outcome (Unit {0})
check_mugged g own pool =
    if own && (pool.size == 0)
    then (do
      check (not g.io_normal || ltb 1 g.p)
      in_bounds (ltb 0 pool.capacity)
      check (not (is_some (pool.array 0))))
    else ok tt

-- `pool->array[index-1]`, or the active deque where the index is 0.
abbrev pub entry : Option ℕ → Pool → ℕ → Outcome (Option ℕ)
entry active pool index =
    if index == 0
    then ok active
    else (in_bounds (ltb (index - 1) pool.capacity) >> ok (pool.array (index - 1)))

-- The chosen deque, `none` for a null pointer, and the generator's state.
unfoldable pub choose_deque : Team → (ℕ → Option ℕ) → ℕ → Victim → ℕ → Outcome (Option ℕ × ℕ)
unfolding choose_index
choose_deque g lock_owner w victim seed = do
  check (holds (lock_owner victim.self) w)
  let (index, pool, s) = choose_index w victim seed
  check_mugged g (w == victim.self) pool
  entry victim.active_deque pool index >>= λ d. ok (d, s)

-- `victim_idx` and `victim2_idx`, of two draws.
unfoldable pub two_choices : ℕ → ℕ → ℕ × ℕ × ℕ
unfolding myrand
two_choices total seed =
    let s = myrand seed in
    let t = myrand s in
    let i = s % total in let j = t % (total - 1) in (i, (if leb i j then j + 1 else j), t)

-- The worker that `deque_suspend` gives a deque to, by the sizes of the workers' pools.
unfoldable pub suspend_target : ℕ → Bool → (ℕ → ℕ) → (ℕ → ℕ) → ℕ → ℕ × ℕ
unfolding two_choices
suspend_target total d_resumable suspended resumable seed =
    let (i, j, t) = two_choices total seed in
    if ltb 1 total
    then (
      (if (d_resumable && ltb (resumable j) (resumable i)) || ltb (suspended j) (suspended i)
          then j
          else i),
      t,
    )
    else (0, seed)

-- The worker that `__cilkrts_make_resumable` gives a deque to that no worker has.
unfoldable pub resumable_target : ℕ → (ℕ → ℕ) → ℕ → ℕ × ℕ
unfolding two_choices
resumable_target total resumable seed =
    let (i, j, t) = two_choices total seed in
    if ltb 1 total then ((if ltb (resumable j) (resumable i) then j else i), t) else (0, seed)
