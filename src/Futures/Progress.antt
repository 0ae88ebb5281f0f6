-- ===== src/Futures/Progress.antt =====
-- `put` returns: it is never blocked for good, and cannot go on for ever.
use cilk_l.Prelude.{
  dec_lt, ℕ, zero, suc, ◌+◌, ◌*◌, ◌≤◌, ◌<◌, ◌≡◌, refl, ◌≢◌, ◌⊎◌, inl, inr, true, false, Option,
  none, some, [], ◌∷◌, ◌++◌, arith, total, total-positive, ◌∙◌, sym, ap, update,
}
use mathlib.Core.Path.{subst}
use cilk_l.Futures.{
  Getter, idle, ticketed, cleared, swapped, linked, suspended, resumed, Putter, computing, stored,
  walking, waking, returning, finished, System, GetterAction, clear, swap, link, suspend,
  getter_step, PutterAction, read_next, make_resumable, leave, resume_returned, putter_step, at,
}
use cilk_l.Futures.Counts.{entering, announced, total-moved, total-same}
use cilk_l.Futures.Chain.{entered}
use cilk_l.Futures.Walk.{awake, reached, ahead, WalkAt, tickets}
use cilk_l.Futures.Inv.{Inv}

-- How many steps a deque with a ticket that is not negative takes until it is suspended.
abbrev pub to_suspend : Getter → ℕ
to_suspend ticketed = 4
to_suspend cleared = 3
to_suspend (swapped old) = 2
to_suspend linked = 1
to_suspend _ = 0

-- How many steps of its own the worker has left at most, behind the one at which it takes the number.
abbrev pub to_finish : Putter → ℕ
to_finish (walking node left ret) = 2 * left + 2
to_finish (waking node left ret) = 2 * left + 3
to_finish (returning ret) = 1
to_finish _ = 0

abbrev pub steps_left : ℕ → System → ℕ
steps_left n s = to_finish s.putter + total (suc n) (λ i. to_suspend (s.getter i))

-- A step of the worker, or of a deque from 1 to `n`.
pub data Step (n v : ℕ) (s t : System) : Type 0 where
  of_getter : (a : GetterAction) (i : ℕ) → 0 < i → i ≤ n → getter_step a i s ≡ some t → Step n v s t
  of_putter : (a : PutterAction) → putter_step v a s ≡ some t → Step n v s t

-- A step is possible after which there are fewer left.
abbrev pub Falls : ℕ → ℕ → System → Type 0
Falls n v s = (t : System) × Step n v s t × (steps_left n t < steps_left n s)

module _ (n v : ℕ) (s : System) (i : ℕ) (real : 0 < i) (le : i ≤ n) where
  -- A deque that is not yet suspended can go on.
  entering-Falls : 0 < entering (s.getter i) → Falls n v s
  unfolding getter_step
  entering-Falls pos = go (s.getter i) refl (ground arith)
    where
      go : (g : Getter) → s.getter i ≡ g → 0 < entering g → Falls n v s
      go ticketed h pos = (
        record s {
          future = record s.future { next = update s.future.next i none };
          getter = update s.getter i cleared;
        },
        of_getter clear i real le (ground (arith, h)),
        omega (arith, total-moved to_suspend (suc n) s.getter i cleared (omega arith) h),
      )
      go cleared h pos = (
        record s {
          future = record s.future { tail = i };
          getter = update s.getter i (swapped s.future.tail);
          slot = update s.slot (suc s.size) i;
          size = suc s.size;
          place = update s.place i (suc s.size);
        },
        of_getter swap i real le (ground (arith, h)),
        omega (
          arith,
          total-moved to_suspend (suc n) s.getter i (swapped s.future.tail) (omega arith) h,
        ),
      )
      go _ h pos = absurd (omega arith)

  asleep_Falls :
      entered (s.getter i) ≡ true
      → awake (s.getter i) ≡ false
      → (s.getter i ≡ suspended) ⊎ Falls n v s
  unfolding getter_step
  asleep_Falls e a = go (s.getter i) refl e a
    where
      go :
          (g : Getter)
          → s.getter i ≡ g
          → entered g ≡ true
          → awake g ≡ false
          → (s.getter i ≡ suspended) ⊎ Falls n v s
      go suspended h e a = inl h
      go linked h e a = inr (
        at s i suspended,
        of_getter suspend i real le (ground (arith, h)),
        omega (arith, total-moved to_suspend (suc n) s.getter i suspended (omega arith) h),
      )
      go (swapped old) h e a = inr (
        record s {
          future = record s.future { next = update s.future.next old (some i) };
          getter = update s.getter i linked;
        },
        of_getter link i real le (ground (arith, h)),
        omega (arith, total-moved to_suspend (suc n) s.getter i linked (omega arith) h),
      )
      go _ h e a = absurd (ground arith)

module _ {n v : ℕ} {s : System} (inv : Inv n v s) where
  open inv use {chain, walk, outside}
  open chain use {head_idle, slot_zero, place_slot, entered_slot, joined}

  at_walk :
      {p : Putter} → s.putter ≡ p → WalkAt (tickets n s) (ahead n s) s.size s.slot s.place s.woken p
  at_walk h = subst (WalkAt (tickets n s) (ahead n s) s.size s.slot s.place s.woken) h walk.walked

  -- A deque that does something is one from 1 to `n`.
  range : (i : ℕ) → s.getter i ≢ idle → (0 < i) × (i ≤ n)
  range i busy = ground (arith, head_idle, outside i)

  -- The worker resumes the `g`-th deque, or that deque can go on.
  wake_Falls :
      (g node : ℕ)
      → 0 < g
      → g ≤ s.size
      → s.slot g ≡ node
      → awake (s.getter node) ≡ false
      → (s.getter node ≡ suspended → Falls n v s)
      → Falls n v s
  wake_Falls g node pos le at_g asleep resume =
      let here : entered (s.getter node) ≡ true =
        ground (arith, entered_slot g pos le, ap (λ j. entered (s.getter j)) at_g) in
      let (real, le_n) = range node (λ e. ground (arith, here, e)) in
      elim (asleep_Falls n v s node real le_n here asleep) [ inl h ↦ resume h | inr can ↦ can ]

  -- The `g`-th deque has not linked itself: it can.
  link_Falls : (g : ℕ) → g < s.size → s.future.next (s.slot g) ≡ none → Falls n v s
  link_Falls g lt empty =
      wake_Falls (suc g) (s.slot (suc g)) (omega arith) lt refl (ground (arith, joined g lt, empty))
        (λ h. ground (arith, joined g lt, empty, h))

  -- A deque that has still to swap the tail can go on.
  ahead-Falls : 0 < ahead n s → Falls n v s
  ahead-Falls pos =
      let (i, lt, enters) = total-positive (suc n) (λ j. entering (s.getter j)) pos in
      let (real, le) = range i (λ e. ground (arith, enters, e)) in
      entering-Falls n v s i real le enters

  read_Falls :
      (node left : ℕ) (ret link_of : Option ℕ)
      → s.putter ≡ walking node (suc left) ret
      → s.future.next node ≡ link_of
      → Falls n v s
  unfolding putter_step
  read_Falls node left none (some k) h next_is = (
    record s { putter = walking k left (some k) },
    of_putter read_next (ground (arith, h, next_is)),
    ground (arith, ap to_finish h),
  )
  read_Falls node left (some r) (some k) h next_is = (
    record s { putter = waking k left (some r) },
    of_putter read_next (ground (arith, h, next_is)),
    ground (arith, ap to_finish h),
  )
  read_Falls node left ret none h next_is =
      let (at_node, le, sum, _, _) = at_walk h in
      elim (dec_lt (s.place node) s.size) [
        | yes lt ↦ link_Falls (s.place node) lt (ap s.future.next at_node ∙ next_is)
        | no ge ↦ ahead-Falls (omega arith)
      ]

  wake_next_Falls : (node left : ℕ) (ret : Option ℕ) → s.putter ≡ waking node left ret → Falls n v s
  unfolding putter_step
  wake_next_Falls node left ret h =
      let (at_node, big, le, _, _, _) = at_walk h in
      wake_Falls (s.place node) node (omega arith) le at_node
        (ap (λ j. awake (s.getter j)) (sym at_node)
          ∙ walk.woke (s.place node) (omega arith) le
          ∙ ground (arith, ap (λ p. reached s.place p (s.place node)) h))
        (λ asleep. (
          record s {
            getter = update s.getter node resumed;
            putter = walking node left ret;
            woken = s.woken ++ node ∷ [];
          },
          of_putter make_resumable (ground (arith, h, asleep)),
          ground (
            arith,
            ap to_finish h,
            total-same to_suspend (suc n) s.getter node resumed asleep refl,
          ),
        ))

  wake_returned_Falls : (r : ℕ) → s.putter ≡ returning (some r) → Falls n v s
  unfolding putter_step
  wake_returned_Falls r h =
      let (none_ahead, ret, _) = at_walk h in
      let first_one : s.slot 1 ≡ r = ground (arith, ret) in
      let some_wait : 0 < s.size = ground (arith, ret) in
      wake_Falls 1 r (omega arith) some_wait first_one
        (ap (λ j. awake (s.getter j)) (sym first_one)
          ∙ walk.woke 1 (omega arith) some_wait
          ∙ ground (arith, ap (λ p. reached s.place p 1) h))
        (λ asleep. (
          record s {
            getter = update s.getter r resumed;
            putter = finished;
            woken = s.woken ++ r ∷ [];
          },
          of_putter resume_returned (ground (arith, h, asleep)),
          ground
              (arith, ap to_finish h, total-same to_suspend (suc n) s.getter r resumed asleep refl),
        ))

  pub put_Falls : (p : Putter) → s.putter ≡ p → announced p ≡ true → p ≢ finished → Falls n v s
  unfolding putter_step
  put_Falls (walking node zero ret) h a ne = (
    record s { putter = returning ret },
    of_putter leave (ground (arith, h)),
    ground (arith, ap to_finish h),
  )
  put_Falls (walking node (suc left) ret) h a ne =
      read_Falls node left ret (s.future.next node) h refl
  put_Falls (waking node left ret) h a ne = wake_next_Falls node left ret h
  put_Falls (returning none) h a ne = (
    record s { putter = finished },
    of_putter resume_returned (ground (arith, h)),
    ground (arith, ap to_finish h),
  )
  put_Falls (returning (some r)) h a ne = wake_returned_Falls r h
  put_Falls finished h a ne = absurd (ne refl)
  put_Falls computing h a ne = absurd (ground arith)
  put_Falls stored h a ne = absurd (ground arith)
