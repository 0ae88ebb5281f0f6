-- ===== src/WorkerLock.antt =====
-- The lock of a worker: cilk-l/runtime/worker_mutex.c, and of scheduler.c `__cilkrts_worker_lock`
-- and `__cilkrts_worker_unlock`, by which the worker takes its own lock. Thieves, and those that
-- move a deque between workers, take it by the functions of worker_mutex.c alone, as the worker
-- itself may do. Workers are numbers from 1, and 0 is the null pointer. A step makes one access to
-- the mutex.
mod Exclusion
mod Tests
use cilk_l.Prelude.{ℕ, ◌<◌, ◌≡◌, Bool, true, false, Option, none, some, ◌==◌, if◌then◌else◌, update}

pub record Mutex : Type 0 where
  pub lock : Bool
  pub owner : ℕ

unfoldable pub mutex_init : Mutex
mutex_init = record { lock = false; owner = 0 }

-- `none` if the lock word was set already.
unfoldable pub try_acquire : Mutex → Option Mutex
try_acquire m = if m.lock then none else some (record m { lock = true })

-- Where a worker stands: it is not at the lock; it is the lock's worker and has set `do_not_steal`;
-- it has set the lock word; it is the owner; it has given up the ownership; it has cleared the lock
-- word, but not `do_not_steal`. The flag says whether it came by `__cilkrts_worker_lock`.
pub data Pc : Type 0 where
  outside : Pc
  announced : Pc
  acquired : Bool → Pc
  inside : Bool → Pc
  disowned : Bool → Pc
  released : Pc

pub record Locks : Type 0 where
  pub mutex : Mutex
  pub do_not_steal : Bool
  pub pc : ℕ → Pc

pub data Action : Type 0 where
  announce acquire own disown release clear_flag : Action

-- `blocked` if the action is not possible yet, `failed` if an assertion fails.
pub data Result : Type 0 where
  next : Locks → Result
  blocked : Result
  failed : Result

unfoldable pub locks_init : Locks
unfolding mutex_init
locks_init = record { mutex = mutex_init; do_not_steal = false; pc = λ i. outside }

-- A step of `__cilkrts_mutex_lock` and `__cilkrts_mutex_trylock`: the assertion and the new owner.
abbrev pub take_ownership : ℕ → Bool → Locks → Result
take_ownership i own_lock s =
    if s.mutex.owner == 0
    then next
        (record s { mutex = record s.mutex { owner = i }; pc = update s.pc i (inside own_lock) })
    else failed

-- The first step of `__cilkrts_mutex_unlock`.
abbrev pub give_up_ownership : ℕ → Bool → Locks → Result
give_up_ownership i own_lock s =
    if s.mutex.owner == i
    then next
        (record s { mutex = record s.mutex { owner = 0 }; pc = update s.pc i (disowned own_lock) })
    else failed

abbrev pub enter : ℕ → Bool → Locks → Result
enter i own_lock s = elim (try_acquire s.mutex) [
  | none ↦ blocked
  | some m ↦ next (record s { mutex = m; pc = update s.pc i (acquired own_lock) })
]

-- A step of worker `i` at the lock of worker `w`.
unfoldable pub lock_step : ℕ → ℕ → Action → Locks → Result
unfolding try_acquire
lock_step w i announce s = elim (s.pc i) [
  | outside ↦
      if i == w
      then (if s.do_not_steal
          then failed
          else next (record s { do_not_steal = true; pc = update s.pc i announced }))
      else blocked
  | _ ↦ blocked
]
lock_step w i acquire s = elim (s.pc i) [
  | outside ↦ enter i false s
  | announced ↦ enter i true s
  | _ ↦ blocked
]
lock_step w i own s = elim (s.pc i) [ acquired b ↦ take_ownership i b s | _ ↦ blocked ]
lock_step w i disown s = elim (s.pc i) [ inside b ↦ give_up_ownership i b s | _ ↦ blocked ]
lock_step w i release s = elim (s.pc i) [
  | disowned b ↦ next (record s {
    mutex = record s.mutex { lock = false };
    pc = update s.pc i (if b then released else outside);
  })
  | _ ↦ blocked
]
lock_step w i clear_flag s = elim (s.pc i) [
  | released ↦
      if s.do_not_steal
      then next (record s { do_not_steal = false; pc = update s.pc i outside })
      else failed
  | _ ↦ blocked
]

-- The states that the workers come to at the lock of `w`.
pub data LockReach (w : ℕ) : Locks → Type 0 where
  unlocked : LockReach w locks_init
  step :
      {s t : Locks} (i : ℕ) (a : Action)
      → 0 < i
      → LockReach w s
      → lock_step w i a s ≡ next t
      → LockReach w t
