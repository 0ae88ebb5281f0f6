-- ===== src/WorkerLock/Exclusion.antt =====
-- Mutual exclusion on a worker's lock.
use cilk_l.Prelude.{ℕ, ◌<◌, ◌≡◌, ◌≢◌, refl, Bool, true, false, arith, ap, update, if◌then◌else◌}
use cilk_l.WorkerLock.{
  mutex_init, try_acquire, Pc, outside, announced, acquired, inside, disowned, released, Locks,
  Action, announce, acquire, own, disown, release, clear_flag, next, failed, locks_init, lock_step,
  LockReach, unlocked, step,
}

-- The worker has set the lock word and not cleared it yet.
abbrev pub holds_lock : Pc → Bool
holds_lock (acquired b) = true
holds_lock (inside b) = true
holds_lock (disowned b) = true
holds_lock _ = false

abbrev pub is_inside : Pc → Bool
is_inside (inside b) = true
is_inside _ = false

-- The worker has set `do_not_steal` and not cleared it yet.
abbrev pub flagged : Pc → Bool
flagged outside = false
flagged announced = true
flagged (acquired b) = b
flagged (inside b) = b
flagged (disowned b) = b
flagged released = true

-- What the steps of the workers keep.
record Sound (w : ℕ) (s : Locks) : Type 0 where
  flag : s.do_not_steal ≡ flagged (s.pc w)
  only_own : (i : ℕ) → i ≢ w → flagged (s.pc i) ≡ false
  held : (i : ℕ) → holds_lock (s.pc i) ≡ true → s.mutex.lock ≡ true
  holder : s.mutex.lock ≡ true → (i : ℕ) × (holds_lock (s.pc i) ≡ true)
  alone : (i j : ℕ) → holds_lock (s.pc i) ≡ true → holds_lock (s.pc j) ≡ true → i ≡ j
  owner : (i : ℕ) → is_inside (s.pc i) ≡ true → s.mutex.owner ≡ i
  owned : 0 < s.mutex.owner → is_inside (s.pc s.mutex.owner) ≡ true

start-Sound : (w : ℕ) → Sound w locks_init
unfolding locks_init mutex_init
start-Sound w = record {
  flag = refl;
  only_own = λ i ne. refl;
  held = λ i h. ground arith;
  holder = λ h. absurd (ground (arith, h));
  alone = λ i j h. ground arith;
  owner = λ i h. ground arith;
  owned = λ h. absurd (omega arith);
}

lock_step-fine : (w i : ℕ) (a : Action) (s : Locks) → Sound w s → lock_step w i a s ≢ failed
unfolding lock_step try_acquire
lock_step-fine w i announce s v e = ground (arith, e, v.flag, ap s.pc)
lock_step-fine w i acquire s v e = ground (arith, e)
lock_step-fine w i own s v e = ground (arith, e, v.owned, v.alone i s.mutex.owner)
lock_step-fine w i disown s v e = ground (arith, e, v.owner i)
lock_step-fine w i release s v e = ground (arith, e)
lock_step-fine w i clear_flag s v e = ground (arith, e, v.flag, v.only_own i)

lock_step-Sound :
    (w i : ℕ) (a : Action) (s t : Locks) → Sound w s → lock_step w i a s ≡ next t → Sound w t
unfolding lock_step try_acquire
lock_step-Sound w i announce s t v e = record {
  flag = ground (arith, e, v.flag, v.only_own i);
  only_own = λ j ne. ground (arith, e, v.only_own j ne, v.only_own i);
  held = λ j h. ground (arith, e, h, v.held j, v.held i, v.alone i j);
  holder = λ h. (let (j, held) = v.holder (ground (arith, e, h)) in (j, ground (arith, e, held)));
  alone = λ j k h h'. ground (arith, e, h, h', v.alone j k, v.held j, v.held k);
  owner = λ j h. ground (arith, e, h, v.owner j, v.alone i j);
  owned = λ h. ground (arith, e, h, v.owned, ap s.pc);
}
lock_step-Sound w i acquire s t v e = record {
  flag = ground (arith, e, v.flag, v.only_own i);
  only_own = λ j ne. ground (arith, e, v.only_own j ne, v.only_own i);
  held = λ j h. ground (arith, e, h, v.held j, v.held i, v.alone i j);
  holder = λ h. (i, ground (arith, e));
  alone = λ j k h h'. ground (arith, e, h, h', v.alone j k, v.held j, v.held k);
  owner = λ j h. ground (arith, e, h, v.owner j, v.alone i j);
  owned = λ h. ground (arith, e, h, v.owned, ap s.pc);
}
lock_step-Sound w i own s t v e = record {
  flag = ground (arith, e, v.flag, v.only_own i);
  only_own = λ j ne. ground (arith, e, v.only_own j ne, v.only_own i);
  held = λ j h. ground (arith, e, h, v.held j, v.held i, v.alone i j);
  holder = λ h. (i, ground (arith, e));
  alone = λ j k h h'. ground (arith, e, h, h', v.alone j k, v.held j, v.held k);
  owner = λ j h. ground (arith, e, h, v.owner j, v.alone i j);
  owned = λ h. ground (arith, e, h, v.owned, ap s.pc);
}
lock_step-Sound w i disown s t v e = record {
  flag = ground (arith, e, v.flag, v.only_own i);
  only_own = λ j ne. ground (arith, e, v.only_own j ne, v.only_own i);
  held = λ j h. ground (arith, e, h, v.held j, v.held i, v.alone i j);
  holder = λ h. (i, ground (arith, e));
  alone = λ j k h h'. ground (arith, e, h, h', v.alone j k, v.held j, v.held k);
  owner = λ j h. ground (arith, e, h, v.owner j, v.alone i j);
  owned = λ h. ground (arith, e, h, v.owned, ap s.pc);
}
lock_step-Sound w i release s t v e = record {
  flag = ground (arith, e, v.flag, v.only_own i);
  only_own = λ j ne. ground (arith, e, v.only_own j ne, v.only_own i);
  held = λ j h. ground (arith, e, h, v.held j, v.held i, v.alone i j);
  holder = λ h. absurd (ground (arith, e, h));
  alone = λ j k h h'. ground (arith, e, h, h', v.alone j k, v.held j, v.held k);
  owner = λ j h. ground (arith, e, h, v.owner j, v.alone i j);
  owned = λ h. ground (arith, e, h, v.owned, ap s.pc);
}
lock_step-Sound w i clear_flag s t v e = record {
  flag = ground (arith, e, v.flag, v.only_own i);
  only_own = λ j ne. ground (arith, e, v.only_own j ne, v.only_own i);
  held = λ j h. ground (arith, e, h, v.held j, v.held i, v.alone i j);
  holder = λ h. (let (j, held) = v.holder (ground (arith, e, h)) in (j, ground (arith, e, held)));
  alone = λ j k h h'. ground (arith, e, h, h', v.alone j k, v.held j, v.held k);
  owner = λ j h. ground (arith, e, h, v.owner j, v.alone i j);
  owned = λ h. ground (arith, e, h, v.owned, ap s.pc);
}

LockReach-Sound : (w : ℕ) (s : Locks) → LockReach w s → Sound w s
LockReach-Sound w s unlocked = start-Sound w
LockReach-Sound w s (step i a pos r e) = lock_step-Sound w i a _ s (LockReach-Sound w _ r) e

-- Whoever has set the lock word has a step to take.
holder_moves :
    (w i : ℕ) (s : Locks)
    → Sound w s
    → holds_lock (s.pc i) ≡ true
    → (a : Action) × (t : Locks) × (lock_step w i a s ≡ next t)
unfolding lock_step
holder_moves w i s v h = go (s.pc i) refl h
  where
    go :
        (p : Pc)
        → s.pc i ≡ p
        → holds_lock p ≡ true
        → (a : Action) × (t : Locks) × (lock_step w i a s ≡ next t)
    go (acquired b) e held = (
      own,
      record s { mutex = record s.mutex { owner = i }; pc = update s.pc i (inside b) },
      ground (arith, e, v.owned, v.alone i s.mutex.owner),
    )
    go (inside b) e held = (
      disown,
      record s { mutex = record s.mutex { owner = 0 }; pc = update s.pc i (disowned b) },
      ground (arith, e, v.owner i),
    )
    go (disowned b) e held = (
      release,
      record s {
        mutex = record s.mutex { lock = false };
        pc = update s.pc i (if b then released else outside);
      },
      ground (arith, e),
    )
    go outside e held = absurd (ground (arith, held))
    go announced e held = absurd (ground (arith, held))
    go released e held = absurd (ground (arith, held))

-- In every state that any number of workers come to at the lock of worker `w`, no assertion of a next
-- step fails: a worker that has set the lock word finds no owner, and one that unlocks is the owner. The
-- lock word is set exactly while some worker is between setting and clearing it, there is one such worker
-- at most, and it has a step to take; the owner is the worker that is inside, and there is none if no
-- worker is. `do_not_steal` is set exactly while worker `w` is between the start of
-- `__cilkrts_worker_lock` and the end of `__cilkrts_worker_unlock`.
pub LockReach-exclusion :
    (w : ℕ) (s : Locks)
    → LockReach w s
    → ((i : ℕ) (a : Action) → lock_step w i a s ≢ failed)
      × ((i : ℕ) → holds_lock (s.pc i) ≡ true → s.mutex.lock ≡ true)
      × (s.mutex.lock ≡ true
          → (i : ℕ) × (holds_lock (s.pc i) ≡ true)
            × ((j : ℕ) → holds_lock (s.pc j) ≡ true → j ≡ i)
            × (a : Action) × (t : Locks) × (lock_step w i a s ≡ next t))
      × ((i : ℕ) → is_inside (s.pc i) ≡ true → s.mutex.owner ≡ i)
      × (0 < s.mutex.owner → is_inside (s.pc s.mutex.owner) ≡ true)
      × (s.do_not_steal ≡ flagged (s.pc w))
LockReach-exclusion w s r =
    let v = LockReach-Sound w s r in
    (
      λ i a. lock_step-fine w i a s v,
      v.held,
      λ h.
          let (i, held) = v.holder h in
          let (a, t, e) = holder_moves w i s v held in
          (i, held, λ j held'. v.alone j i held' held, a, t, e),
      v.owner,
      v.owned,
      v.flag,
    )
