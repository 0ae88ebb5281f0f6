-- ===== src/WorkerLock/Tests.antt =====
-- The lock of worker 1, which waits for it while thief 2 has it.
use cilk_l.Prelude.{ℕ, ◌<◌, ◌≡◌, ◌≢◌, refl, true, false, arith, update}
use cilk_l.WorkerLock.{
  mutex_init, try_acquire, outside, announced, inside, acquired, Locks, Action, announce, acquire,
  own, disown, next, blocked, failed, locks_init, lock_step, LockReach, unlocked, step,
}
use cilk_l.WorkerLock.Exclusion.{holds_lock, is_inside, flagged, LockReach-exclusion}

-- Thief 2 is inside, and worker 1 has announced that it will come.
abbrev waiting : Locks
waiting = record {
  mutex = record { lock = true; owner = 2 };
  do_not_steal = true;
  pc = update (update (update (λ i. outside) 2 (acquired false)) 1 announced) 2 (inside false);
}

waiting-LockReach : LockReach 1 waiting
unfolding lock_step try_acquire mutex_init locks_init
waiting-LockReach =
    step 2 own (omega arith)
      (step 1 announce (omega arith) (step 2 acquire (omega arith) unlocked refl) refl) refl

-- It cannot get in yet.
test_blocked : lock_step 1 1 acquire waiting ≡ blocked
unfolding lock_step try_acquire
test_blocked = refl

-- A worker that unlocks without the lock fails an assertion.
test_failed : lock_step 1 2 disown (record waiting { mutex = mutex_init }) ≡ failed
unfolding lock_step mutex_init
test_failed = refl

LockReach-exclusion_example :
    ((i : ℕ) (a : Action) → lock_step 1 i a waiting ≢ failed)
    × ((i : ℕ) → holds_lock (waiting.pc i) ≡ true → waiting.mutex.lock ≡ true)
    × (waiting.mutex.lock ≡ true
        → (i : ℕ) × (holds_lock (waiting.pc i) ≡ true)
          × ((j : ℕ) → holds_lock (waiting.pc j) ≡ true → j ≡ i)
          × (a : Action) × (t : Locks) × (lock_step 1 i a waiting ≡ next t))
    × ((i : ℕ) → is_inside (waiting.pc i) ≡ true → waiting.mutex.owner ≡ i)
    × (0 < waiting.mutex.owner → is_inside (waiting.pc waiting.mutex.owner) ≡ true)
    × (waiting.do_not_steal ≡ flagged (waiting.pc 1))
LockReach-exclusion_example = LockReach-exclusion 1 waiting waiting-LockReach
