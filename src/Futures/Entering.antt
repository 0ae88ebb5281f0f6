-- ===== src/Futures/Entering.antt =====
-- Every step of a deque keeps what is known of how far `put` has come.
use cilk_l.Prelude.{
  ℕ, zero, suc, ◌+◌, ◌-◌, ◌≤◌, ◌<◌, ◌≡◌, refl, sym, ap, ◌∙◌, ◌≢◌, ℕ_discrete, update_ne,
  update_self, Bool, false, arith, update, window-update, if◌then◌else◌, ◌==◌, inr,
}
use mathlib.Core.Path.{subst}
use cilk_l.Futures.{
  Future, ready, fetch_add, Getter, seen, ticketed, cleared, swapped, late, failed, Putter,
  computing, stored, walking, waking, returning, finished, System, at,
}
use cilk_l.Futures.Moves.{
  Turn, looks, passes, suspends, returns, returns_late, returns_passing, fails, fails_late,
  fails_passing, Moved, turns, fetches, clears, swaps, links,
}
use cilk_l.Futures.Chain.{Chain}
use cilk_l.Futures.Counts.{taken, taken-fetched, entering, announced, total-moved}
use cilk_l.Futures.Walk.{awake, reached, rest, WalkAt, tickets, ahead, Walk}

-- A step of a deque that does not change how many enter the list.
record Steady (p q : Getter) : Type 0 where
  tickets_same : taken q ≡ taken p
  ahead_same : entering q ≡ entering p
  awake_same : awake q ≡ awake p

Turn-Steady : {f : Future} {p q : Getter} → Turn f p q → q ≢ failed → Steady p q
Turn-Steady (looks _) ok = record { tickets_same = refl; ahead_same = refl; awake_same = refl }
Turn-Steady (passes _) ok = record { tickets_same = refl; ahead_same = refl; awake_same = refl }
Turn-Steady suspends ok = record { tickets_same = refl; ahead_same = refl; awake_same = refl }
Turn-Steady (returns _) ok = record { tickets_same = refl; ahead_same = refl; awake_same = refl }
Turn-Steady (returns_passing _) ok = record {
  tickets_same = refl;
  ahead_same = refl;
  awake_same = refl;
}
Turn-Steady (returns_late _) ok = record {
  tickets_same = refl;
  ahead_same = refl;
  awake_same = refl;
}
Turn-Steady (fails _) ok = absurd (ok refl)
Turn-Steady (fails_late _) ok = absurd (ok refl)
Turn-Steady (fails_passing _) ok = absurd (ok refl)

awake-update :
    (g : ℕ → Getter) (i : ℕ) (q : Getter)
    → awake q ≡ awake (g i)
    → (j : ℕ) → awake (update g i q j) ≡ awake (g j)
awake-update g i q same j = elim (ℕ_discrete i j) [
  | yes e ↦ ap awake (ground (arith, e)) ∙ same ∙ ap (λ x. awake (g x)) e
  | no ne ↦ ap awake (update_ne g i j q ne)
]

module _ {n : ℕ} {s : System} (i : ℕ) (lt : i < suc n) (c : Chain s) (w : Walk n s) where
  open w use {walked, woke}
  open c use {place_slot, entered_slot, slot_place, slot_zero, head_idle}

  steady :
      {f : Future} {p q : Getter}
      → s.getter i ≡ p
      → Steady p q
      → Walk n (record s { future = f; getter = update s.getter i q })
  steady {p = p} {q} h st = record {
    walked =
        subst (λ t. WalkAt t (ahead n (at s i q)) s.size s.slot s.place s.woken s.putter)
          same_tickets
          (subst (λ a. WalkAt (tickets n s) a s.size s.slot s.place s.woken s.putter) same_ahead
            walked);
    woke = λ k pos le.
        awake-update s.getter i q (st.awake_same ∙ ap awake (sym h)) (s.slot k) ∙ woke k pos le;
  }
    where
      same_tickets : tickets n s ≡ tickets n (at s i q)
      same_tickets = omega (arith, total-moved taken (suc n) s.getter i q lt h, st.tickets_same)

      same_ahead : ahead n s ≡ ahead n (at s i q)
      same_ahead = omega (arith, total-moved entering (suc n) s.getter i q lt h, st.ahead_same)

  fetched_WalkAt :
      (p : Putter) (b : Bool) (t a : ℕ)
      → b ≡ announced p
      → t ≡ tickets n s + 1
      → a ≡ ahead n s + (if b then 0 else 1)
      → WalkAt (tickets n s) (ahead n s) s.size s.slot s.place s.woken p
      → WalkAt t a s.size s.slot s.place s.woken p
  fetched_WalkAt computing b t a e et ea h = ground (arith, e, et, ea, h)
  fetched_WalkAt stored b t a e et ea h = ground (arith, e, et, ea, h)
  fetched_WalkAt (walking node left ret) b t a e et ea h = ground (arith, e, ea, h)
  fetched_WalkAt (waking node left ret) b t a e et ea h = ground (arith, e, ea, h)
  fetched_WalkAt (returning ret) b t a e et ea h = ground (arith, e, ea, h)
  fetched_WalkAt finished b t a e et ea h = ground (arith, e, ea, h)

  fetched :
      ready s.future ≡ announced s.putter
      → s.getter i ≡ seen
      → Walk n (record s {
        future = fetch_add 1 s.future;
        getter = update s.getter i (if ready s.future then late else ticketed);
      })
  fetched e h = record {
    walked =
        fetched_WalkAt s.putter (ready s.future) _ _ e
          (omega
            (arith, total-moved taken (suc n) s.getter i q lt h, taken-fetched (ready s.future)))
          (ground (arith, total-moved entering (suc n) s.getter i q lt h)) walked;
    woke = λ k pos le. awake-update s.getter i q (ground (arith, h)) (s.slot k) ∙ woke k pos le;
  }
    where
      q : Getter
      q = if ready s.future then late else ticketed

  -- The deque that swaps the tail is not in the list.
  new : s.getter i ≡ cleared → (j : ℕ) → s.slot (s.place j) ≡ j → s.place j ≤ s.size → i ≢ j
  new h j at_j le e = ground (
    arith,
    h,
    at_j,
    le,
    ap s.getter e,
    ap s.getter at_j,
    entered_slot (s.place j),
    head_idle,
    slot_zero,
  )

  rest-update : (g : ℕ) → g ≤ s.size → rest (update s.slot (suc s.size) i) g ≡ rest s.slot g
  rest-update zero le = refl
  rest-update (suc zero) le = refl
  rest-update (suc (suc g)) le = window-update s.slot 2 (suc g) (suc s.size) i (inr (omega arith))

  swapped_WalkAt :
      (p : Putter) (t a : ℕ)
      → s.getter i ≡ cleared
      → t ≡ tickets n s
      → a + 1 ≡ ahead n s
      → WalkAt (tickets n s) (ahead n s) s.size s.slot s.place s.woken p
      → WalkAt t a
          (suc s.size)
          (update s.slot (suc s.size) i)
          (update s.place i (suc s.size))
          s.woken
          p
  swapped_WalkAt computing t a c et e h = ground (arith, et, e, h)
  swapped_WalkAt stored t a c et e h = ground (arith, et, e, h)
  swapped_WalkAt (walking node left ret) t a c et e h =
      ground (arith, e, h, new c node, rest-update (s.place node))
  swapped_WalkAt (waking node left ret) t a c et e h =
      ground (arith, e, h, new c node, rest-update (s.place node - 1))
  swapped_WalkAt (returning ret) t a c et e h = absurd (omega (arith, e, h))
  swapped_WalkAt finished t a c et e h = absurd (omega (arith, e, h))

  swapped_reached :
      (p : Putter)
      → s.getter i ≡ cleared
      → 0 < ahead n s
      → WalkAt (tickets n s) (ahead n s) s.size s.slot s.place s.woken p
      → (k : ℕ) → k ≤ suc s.size
      → reached (update s.place i (suc s.size)) p k
        ≡ (if k == suc s.size then false else reached s.place p k)
  swapped_reached computing c pos h k le = ground arith
  swapped_reached stored c pos h k le = ground arith
  swapped_reached (walking node left ret) c pos h k le = ground (arith, h, new c node)
  swapped_reached (waking node left ret) c pos h k le = ground (arith, h, new c node)
  swapped_reached (returning ret) c pos h k le = absurd (omega (arith, h))
  swapped_reached finished c pos h k le = absurd (omega (arith, h))

  swapped_awake :
      (q : Getter)
      → s.getter i ≡ cleared
      → awake q ≡ false
      → (k : ℕ) → 0 < k
      → k ≤ suc s.size
      → awake (update s.getter i q (update s.slot (suc s.size) i k))
        ≡ (if k == suc s.size then false else awake (s.getter (s.slot k)))
  swapped_awake q h asleep k pos le = elim (ℕ_discrete k (suc s.size)) [
    | yes e ↦ ground (arith, e, asleep)
    | no ne ↦
        let apart : i ≢ s.slot k = λ e. ground (arith, h, entered_slot k, ap s.getter e) in
        ground (arith, ne, apart)
  ]

  swapped_Walk :
      s.getter i ≡ cleared
      → Walk n (record s {
        future = record s.future { tail = i };
        getter = update s.getter i (swapped s.future.tail);
        slot = update s.slot (suc s.size) i;
        size = suc s.size;
        place = update s.place i (suc s.size);
      })
  swapped_Walk h = record {
    walked = swapped_WalkAt s.putter _ _ h same fewer walked;
    woke = λ k pos le. ground (
      arith,
      swapped_awake (swapped s.future.tail) h refl k pos le,
      swapped_reached s.putter h (omega (arith, fewer)) walked k le,
      woke k pos,
    );
  }
    where
      same : tickets n (at s i (swapped s.future.tail)) ≡ tickets n s
      same = omega (arith, total-moved taken (suc n) s.getter i (swapped s.future.tail) lt h)

      fewer : ahead n (at s i (swapped s.future.tail)) + 1 ≡ ahead n s
      fewer = omega (arith, total-moved entering (suc n) s.getter i (swapped s.future.tail) lt h)

  pub Walk-Moved :
      {t : System}
      → t.getter i ≢ failed
      → Moved i s t
      → ready s.future ≡ announced s.putter
      → Walk n t
  Walk-Moved ok (turns {q = q} move h) r =
      steady h (Turn-Steady move (λ e. ok (update_self s.getter i q ∙ e)))
  Walk-Moved ok (fetches h) r = fetched r h
  Walk-Moved ok (clears h) r =
      steady h (record { tickets_same = refl; ahead_same = refl; awake_same = refl })
  Walk-Moved ok (swaps h) r = swapped_Walk h
  Walk-Moved ok (links h) r =
      steady h (record { tickets_same = refl; ahead_same = refl; awake_same = refl })
