-- ===== src/Futures/Reuse.antt =====
-- `put` reads the link of a deque that it has already made resumable.
use cilk_l.Prelude.{
  ℕ, suc, ◌≡◌, refl, ◌≢◌, ◌∙◌, sym, Bool, true, false, Option, none, some, arith, ap, update,
  if◌then◌else◌,
}
use mathlib.Core.Path.{subst}
use cilk_l.Futures.{
  ready, Getter, ticketed, cleared, swapped, linked, suspended, resumed, late, waited, failed,
  walking, System, Reach, reuse_link, start, by_getter, by_putter, by_reuse, link_behind,
  by_follower,
}
use cilk_l.Futures.Moves.{
  Turn, looks, passes, suspends, returns, returns_late, returns_passing, fails, fails_late,
  fails_passing, Moved, turns, fetches, clears, swaps, links, Put, stores, announces, reads_first,
  reads_next, resumes, leaves, finishes, resumes_returned, getter_step-Moved, putter_step-Put,
}

-- The deque is behind its wait.
abbrev pub woken_up : Getter → Bool
woken_up resumed = true
woken_up (waited v) = true
woken_up failed = true
woken_up _ = false

-- `put` stands at the link of deque `k`, with deques left to wake; that link is clear; deque `k` has been
-- woken, and no deque is to link itself to it.
pub record Lost (k left : ℕ) (ret : Option ℕ) (s : System) : Type 0 where
  pub stands : s.putter ≡ walking k (suc left) ret
  pub clear_link : s.future.next k ≡ none
  pub behind : woken_up (s.getter k) ≡ true
  pub not_last : s.future.tail ≢ k
  pub not_old : (i : ℕ) → s.getter i ≢ swapped k

module _ {k left : ℕ} {ret : Option ℕ} {s : System} (l : Lost k left ret s) where
  open l use {stands, clear_link, behind, not_last, not_old}

  Lost-Turn :
      {p q : Getter}
      → Turn s.future p q
      → (woken_up p ≡ true → woken_up q ≡ true) × (q ≢ swapped k) × (p ≢ suspended)
  Lost-Turn (looks _) = (λ e. ground arith, λ e. ground arith, λ e. ground arith)
  Lost-Turn (passes _) = (λ e. ground arith, λ e. ground arith, λ e. ground arith)
  Lost-Turn suspends = (λ e. ground arith, λ e. ground arith, λ e. ground arith)
  Lost-Turn (returns _) = (λ e. ground arith, λ e. ground arith, λ e. ground arith)
  Lost-Turn (returns_late _) = (λ e. ground arith, λ e. ground arith, λ e. ground arith)
  Lost-Turn (fails _) = (λ e. ground arith, λ e. ground arith, λ e. ground arith)
  Lost-Turn (fails_late _) = (λ e. ground arith, λ e. ground arith, λ e. ground arith)
  Lost-Turn (returns_passing _) = (λ e. ground arith, λ e. ground arith, λ e. ground arith)
  Lost-Turn (fails_passing _) = (λ e. ground arith, λ e. ground arith, λ e. ground arith)

  -- A step of deque `i` from `p` to `q` wakes no deque, and links none to deque `k`.
  record Aside (i : ℕ) (q : Getter) : Type 0 where
    still_behind : woken_up (update s.getter i q k) ≡ true
    still_not_old : (j : ℕ) → update s.getter i q j ≢ swapped k
    still_suspended : (j : ℕ) → s.getter j ≡ suspended → update s.getter i q j ≡ suspended

  aside :
      {p : Getter} (i : ℕ) (q : Getter)
      → s.getter i ≡ p
      → (woken_up p ≡ true → woken_up q ≡ true)
      → q ≢ swapped k
      → p ≢ suspended
      → Aside i q
  aside i q h keeps fresh busy = record {
    still_behind = ground (arith, h, keeps, behind, ap s.getter);
    still_not_old = λ j. ground (arith, not_old j, fresh);
    still_suspended = λ j e. ground (arith, e, h, busy, ap s.getter);
  }

  Lost-Moved :
      {i : ℕ} {t : System}
      → Moved i s t
      → Lost k left ret t × ((j : ℕ) → s.getter j ≡ suspended → t.getter j ≡ suspended)
  Lost-Moved {i} (turns {q = q} move h) =
      let (keeps, fresh, busy) = Lost-Turn move in
      let a = aside i q h keeps fresh busy in
      (
        record {
          stands = stands;
          clear_link = clear_link;
          behind = a.still_behind;
          not_last = not_last;
          not_old = a.still_not_old;
        },
        a.still_suspended,
      )
  Lost-Moved {i} (fetches h) =
      let a =
        aside i (if ready s.future then late else ticketed) h (λ e. ground arith) (ground arith)
          (ground arith) in
      (
        record {
          stands = stands;
          clear_link = clear_link;
          behind = a.still_behind;
          not_last = not_last;
          not_old = a.still_not_old;
        },
        a.still_suspended,
      )
  Lost-Moved {i} (clears h) =
      let a = aside i cleared h (λ e. ground arith) (ground arith) (ground arith) in
      (
        record {
          stands = stands;
          clear_link = ground (arith, clear_link);
          behind = a.still_behind;
          not_last = not_last;
          not_old = a.still_not_old;
        },
        a.still_suspended,
      )
  Lost-Moved {i} (swaps h) =
      let a =
        aside i (swapped s.future.tail) h (λ e. ground arith) (ground (arith, not_last))
          (ground arith) in
      (
        record {
          stands = stands;
          clear_link = clear_link;
          behind = a.still_behind;
          not_last = λ e. ground (arith, behind, h, ap s.getter e);
          not_old = a.still_not_old;
        },
        a.still_suspended,
      )
  Lost-Moved {i} (links {old} h) =
      let a = aside i linked h (λ e. ground arith) (ground arith) (ground arith) in
      (
        record {
          stands = stands;
          clear_link = ground (arith, clear_link, not_old i, h);
          behind = a.still_behind;
          not_last = not_last;
          not_old = a.still_not_old;
        },
        a.still_suspended,
      )

  -- No step of the worker is possible.
  Lost-Put : {v : ℕ} {t : System} → Put v s t → ⊥
  Lost-Put (stores h) = ground (arith, stands, h)
  Lost-Put (announces h) = ground (arith, stands, h)
  Lost-Put (reads_first h next_is) =
      ground (arith, stands, h, next_is, clear_link, ap s.future.next)
  Lost-Put (reads_next h next_is) = ground (arith, stands, h, next_is, clear_link, ap s.future.next)
  Lost-Put (resumes h e) = ground (arith, stands, h)
  Lost-Put (leaves h) = ground (arith, stands, h)
  Lost-Put (finishes h) = ground (arith, stands, h)
  Lost-Put (resumes_returned h e) = ground (arith, stands, h)

  Lost-reuse_link :
      (i : ℕ) {t : System}
      → reuse_link i s ≡ some t
      → Lost k left ret t × ((j : ℕ) → s.getter j ≡ suspended → t.getter j ≡ suspended)
  unfolding reuse_link
  Lost-reuse_link i {t} e =
      subst (λ t. Lost k left ret t × ((j : ℕ) → s.getter j ≡ suspended → t.getter j ≡ suspended))
        same
        (
          record {
            stands = stands;
            clear_link = ground (arith, clear_link);
            behind = behind;
            not_last = not_last;
            not_old = not_old;
          },
          λ j e. e,
        )
    where
      same : record s { future = record s.future { next = update s.future.next i none } } ≡ t
      same = ground (arith, e)

  -- As long as no deque has linked itself to `k`, those behind others are of no concern.
  Lost-link_behind :
      (i j : ℕ) {t : System}
      → link_behind i j s ≡ some t
      → t.followed k ≡ false
      → Lost k left ret t × ((j : ℕ) → s.getter j ≡ suspended → t.getter j ≡ suspended)
  unfolding link_behind
  Lost-link_behind i j {t} e alone =
      subst (λ t. Lost k left ret t × ((j : ℕ) → s.getter j ≡ suspended → t.getter j ≡ suspended))
        same
        (
          record {
            stands = stands;
            clear_link = ground (arith, clear_link, other);
            behind = behind;
            not_last = not_last;
            not_old = not_old;
          },
          λ j e. e,
        )
    where
      same :
          record s {
            future = record s.future { next = update s.future.next i (some j) };
            followed = update s.followed i true;
          }
          ≡ t
      same = ground (arith, e)

      other : i ≢ k
      other h = ground (arith, h, alone, ap (λ t. t.followed k) same)

followed-Moved : {i : ℕ} {s t : System} → Moved i s t → t.followed ≡ s.followed
followed-Moved (turns move h) = refl
followed-Moved (fetches h) = refl
followed-Moved (clears h) = refl
followed-Moved (swaps h) = refl
followed-Moved (links h) = refl

followed-Put : {v : ℕ} {s t : System} → Put v s t → t.followed ≡ s.followed
followed-Put (stores h) = refl
followed-Put (announces h) = refl
followed-Put (reads_first h e) = refl
followed-Put (reads_next h e) = refl
followed-Put (resumes h e) = refl
followed-Put (leaves h) = refl
followed-Put (finishes h) = refl
followed-Put (resumes_returned h e) = refl

followed-reuse_link : (i : ℕ) (s t : System) → reuse_link i s ≡ some t → t.followed ≡ s.followed
unfolding reuse_link
followed-reuse_link i s t e = ground (arith, e)

followed-link_behind :
    (i j k : ℕ) (s t : System)
    → link_behind i j s ≡ some t
    → t.followed k ≡ false
    → s.followed k ≡ false
unfolding link_behind
followed-link_behind i j k s t e alone = ground (arith, e, alone)

-- If `put` stands at the link of a deque that is behind its wait, with deques left to wake, and that link
-- has been cleared to wait for another future, while the deque is not the last of the list and none is
-- still to link itself to it, then `put` takes no step, whatever the deques do, until another deque that
-- waits for that other future has linked itself to that link: if none has, the link is still clear, `put`
-- has not returned, and no deque that was suspended has been resumed.
pub reused_link_hangs :
    (n v k left : ℕ) (ret : Option ℕ) (s t : System)
    → Lost k left ret s
    → Reach n v true s t
    → t.followed k ≡ false
    → (t.putter ≡ walking k (suc left) ret)
      × (t.future.next k ≡ none)
      × ((j : ℕ) → s.getter j ≡ suspended → t.getter j ≡ suspended)
reused_link_hangs n v k left ret s t l r alone =
    let (lost, kept) = go t r alone in (lost.stands, lost.clear_link, kept)
  where
    go :
        (t : System)
        → Reach n v true s t
        → t.followed k ≡ false
        → Lost k left ret t × ((j : ℕ) → s.getter j ≡ suspended → t.getter j ≡ suspended)
    go t start alone = (l, λ j e. e)
    go t (by_getter a i r real le e) alone =
        let m = getter_step-Moved i a e in
        let (lost, kept) = go _ r (ap (λ f. f k) (sym (followed-Moved m)) ∙ alone) in
        let (still, keeps) = Lost-Moved lost m in (still, λ j h. keeps j (kept j h))
    go t (by_putter a r e) alone =
        let m = putter_step-Put v a e in
        let (lost, kept) = go _ r (ap (λ f. f k) (sym (followed-Put m)) ∙ alone) in
        absurd (Lost-Put lost m)
    go t (by_reuse i reused r e) alone =
        let (lost, kept) = go _ r (ap (λ f. f k) (sym (followed-reuse_link i _ t e)) ∙ alone) in
        let (still, keeps) = Lost-reuse_link lost i e in (still, λ j h. keeps j (kept j h))
    go t (by_follower i j reused r e) alone =
        let (lost, kept) = go _ r (followed-link_behind i j k _ t e alone) in
        let (still, keeps) = Lost-link_behind lost i j e alone in (still, λ j h. keeps j (kept j h))
