-- ===== src/Futures/Termination.antt =====
-- The steps that `put` has left fall.
use cilk_l.Prelude.{
  ℕ, zero, suc, ◌⊎◌, inl, inr, ◌^◌, ◌≤◌, ◌<◌, ◌≡◌, refl, ◌≢◌, true, false, Option, some, arith,
  if◌then◌else◌, ap,
}
use cilk_l.Futures.{
  Future, ready, Getter, ticketed, cleared, swapped, linked, resumed, late, System, Putter,
  PutterAction, putter_step, new_future, Reach, by_getter, by_putter, finished, computing, stored,
  walking, waking, returning,
}
use cilk_l.Futures.Moves.{
  Turn, looks, passes, suspends, returns, returns_late, returns_passing, fails, fails_late,
  fails_passing, Moved, turns, fetches, clears, swaps, links, Put, stores, announces, reads_first,
  reads_next, resumes, leaves, finishes, resumes_returned, getter_step-Moved, putter_step-Put,
}
use cilk_l.Futures.Counts.{announced, total-moved, total-same, ready_lem}
use cilk_l.Futures.Inv.{Reach-Inv}
use cilk_l.Futures.Progress.{
  to_suspend, to_finish, steps_left, put_Falls, Step, of_getter, of_putter,
}

Turn-le : {f : Future} {p q : Getter} → Turn f p q → to_suspend q ≤ to_suspend p
Turn-le (looks _) = omega arith
Turn-le (passes _) = omega arith
Turn-le suspends = omega arith
Turn-le (returns _) = omega arith
Turn-le (returns_passing _) = omega arith
Turn-le (returns_late _) = omega arith
Turn-le (fails _) = omega arith
Turn-le (fails_passing _) = omega arith
Turn-le (fails_late _) = omega arith

module _ (n : ℕ) {s : System} (go_on : announced s.putter ≡ true) where
  Moved-left :
      {i : ℕ} {t : System}
      → i ≤ n
      → ready s.future ≡ announced s.putter
      → Moved i s t
      → (announced t.putter ≡ true) × (steps_left n t ≤ steps_left n s)
  Moved-left {i} le e (turns {q} move h) = (
    go_on,
    omega (arith, total-moved to_suspend (suc n) s.getter i q (omega arith) h, Turn-le move),
  )
  Moved-left {i} le e (fetches h) = (
    go_on,
    ground (
      arith,
      e,
      go_on,
      total-moved to_suspend (suc n) s.getter i (if ready s.future then late else ticketed)
          (omega arith) h,
    ),
  )
  Moved-left {i} le e (clears h) =
      (go_on, omega (arith, total-moved to_suspend (suc n) s.getter i cleared (omega arith) h))
  Moved-left {i} le e (swaps h) = (
    go_on,
    omega
        (arith, total-moved to_suspend (suc n) s.getter i (swapped s.future.tail) (omega arith) h),
  )
  Moved-left {i} le e (links h) =
      (go_on, omega (arith, total-moved to_suspend (suc n) s.getter i linked (omega arith) h))

  Put-left :
      {v : ℕ} {t : System}
      → Put v s t
      → (announced t.putter ≡ true) × (steps_left n t < steps_left n s)
  Put-left (stores h) = absurd (ground (arith, go_on, h))
  Put-left (announces h) = absurd (ground (arith, go_on, h))
  Put-left (reads_first h _) = (refl, ground (arith, ap to_finish h))
  Put-left (reads_next h _) = (refl, ground (arith, ap to_finish h))
  Put-left (resumes {node} h e) = (
    refl,
    ground (arith, ap to_finish h, total-same to_suspend (suc n) s.getter node resumed e refl),
  )
  Put-left (leaves h) = (refl, ground (arith, ap to_finish h))
  Put-left (finishes h) = (refl, ground (arith, ap to_finish h))
  Put-left (resumes_returned {r} h e) = (
    refl,
    ground (arith, ap to_finish h, total-same to_suspend (suc n) s.getter r resumed e refl),
  )

-- So many steps of the worker and of deques from 1 to `n`.
pub data Run (n v : ℕ) : ℕ → System → System → Type 0 where
  no_step : {s : System} → Run n v 0 s s
  more : {k : ℕ} {s t u : System} → Step n v s t → Run n v k t u → Run n v (suc k) s u

is_finished : (p : Putter) → (p ≡ finished) ⊎ (p ≢ finished)
is_finished finished = inl refl
is_finished computing = inr (λ e. ground (arith, e))
is_finished stored = inr (λ e. ground (arith, e))
is_finished (walking node left ret) = inr (λ e. ground (arith, e))
is_finished (waking node left ret) = inr (λ e. ground (arith, e))
is_finished (returning ret) = inr (λ e. ground (arith, e))

module _ (n v garbage : ℕ) (next : ℕ → Option ℕ) (few : suc n < 2 ^ 31) where
  later :
      {s t : System}
      → Step n v s t
      → Reach n v false (new_future garbage next) s
      → Reach n v false (new_future garbage next) t
  later (of_getter a i real le e) r = by_getter a i r real le e
  later (of_putter a e) r = by_putter a r e

  no_more :
      {s t : System}
      → Step n v s t
      → Reach n v false (new_future garbage next) s
      → announced s.putter ≡ true
      → (announced t.putter ≡ true) × (steps_left n t ≤ steps_left n s)
  no_more (of_getter a i real le e) r go_on =
      Moved-left n go_on le (ready_lem few (Reach-Inv few garbage next r).counts)
        (getter_step-Moved i a e)
  no_more (of_putter a e) r go_on =
      let (still, fewer) = Put-left n go_on (putter_step-Put v a e) in (still, omega arith)

  -- A way for `put` to return, of at most `m` steps.
  returns_in :
      (m : ℕ) (s : System)
      → steps_left n s ≤ m
      → Reach n v false (new_future garbage next) s
      → announced s.putter ≡ true
      → (k : ℕ) × (t : System) × Run n v k s t × (k ≤ m) × (t.putter ≡ finished)
  returns_in zero s le r go_on = elim (is_finished s.putter) [
    | inl done ↦ (0, s, no_step, omega arith, done)
    | inr going ↦
        let (t, step, falls) = put_Falls (Reach-Inv few garbage next r) s.putter refl go_on going in
        absurd (omega arith)
  ]
  returns_in (suc m) s le r go_on = elim (is_finished s.putter) [
    | inl done ↦ (0, s, no_step, omega arith, done)
    | inr going ↦
        let (t, step, falls) = put_Falls (Reach-Inv few garbage next r) s.putter refl go_on going in
        let (k, u, run, le_k, done) =
          returns_in m t (omega arith) (later step r) ((no_more step r go_on).0) in
        (suc k, u, more step run, omega arith, done)
  ]

-- For fewer than 2^31 - 1 deques, none of which waits for another future meanwhile, in any state behind
-- the one at which `put` takes the number of deques: a number of steps bounds what is left. There are at
-- most so many steps after which `put` has returned and its deque is resumed, no step of the worker or of
-- a deque raises the number, and each step of the worker lowers it. So `put` can return from any such
-- state, and takes no more steps of its own than that.
pub put_returns :
    (n v garbage : ℕ) (next : ℕ → Option ℕ) (s : System)
    → suc n < 2 ^ 31
    → Reach n v false (new_future garbage next) s
    → announced s.putter ≡ true
    → ((k : ℕ) × (t : System) × Run n v k s t × (k ≤ steps_left n s) × (t.putter ≡ finished))
      × ((t : System)
          → Step n v s t
          → (announced t.putter ≡ true) × (steps_left n t ≤ steps_left n s))
      × ((a : PutterAction) (t : System)
          → putter_step v a s ≡ some t
          → steps_left n t < steps_left n s)
put_returns n v garbage next s few r go_on = (
  returns_in n v garbage next few (steps_left n s) s (omega arith) r go_on,
  λ t step. no_more n v garbage next few step r go_on,
  λ a t e. (Put-left n go_on (putter_step-Put v a e)).1,
)
