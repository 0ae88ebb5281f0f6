-- ===== src/Futures/Waking.antt =====
-- Every step of the worker that calls `put` keeps what is known of how far it has come.
use cilk_l.Prelude.{
  ℕ, zero, suc, ◌+◌, ◌-◌, ◌^◌, ◌≤◌, ◌<◌, ◌≡◌, refl, sym, ap, ap₂, ◌∙◌, ◌≢◌, ℕ_discrete, Bool, true,
  false, Option, none, some, List, [], ◌∷◌, ◌++◌, arith, update, window-snoc, if◌then◌else◌, ltb,
  ◌&&◌, ◌==◌, not,
}
use mathlib.Core.Path.{subst, subst₂}
use cilk_l.Futures.{
  ready, fetch_add, suspended, resumed, Putter, stored, walking, waking, returning, finished,
  System, at,
}
use cilk_l.Futures.Moves.{
  Put, stores, announces, reads_first, reads_next, resumes, leaves, finishes, resumes_returned,
}
use cilk_l.Futures.Chain.{Chain}
use cilk_l.Futures.Counts.{taken, entering, Counts, total-same, tickets-le}
use cilk_l.Futures.Walk.{awake, reached, first, rest, WalkAt, tickets, ahead, Walk}

none_first : (slot : ℕ → ℕ) (g : ℕ) → none ≡ first slot g → g ≡ 0
none_first slot g h = ground (arith, h)

rest-snoc : (slot : ℕ → ℕ) (g : ℕ) → 1 < g → rest slot g ≡ rest slot (g - 1) ++ slot g ∷ []
rest-snoc slot zero lt = absurd (omega arith)
rest-snoc slot (suc zero) lt = absurd (omega arith)
rest-snoc slot (suc (suc m)) lt =
    window-snoc slot 2 m ∙ ap₂ (λ g k. rest slot g ++ slot k ∷ []) before here
  where
    before : suc m ≡ suc (suc m) - 1
    before = omega arith

    here : 2 + m ≡ suc (suc m)
    here = omega arith

module _ {n : ℕ} {s : System} (c : Chain s) (w : Walk n s) where
  open w use {walked, woke}
  open c use {
    place_slot, entered_slot, slot_place, slot_zero, place_zero, head_idle, joined, last_link,
  }

  at_walk :
      {p : Putter} → s.putter ≡ p → WalkAt (tickets n s) (ahead n s) s.size s.slot s.place s.woken p
  at_walk h = subst (WalkAt (tickets n s) (ahead n s) s.size s.slot s.place s.woken) h walked

  woke_at :
      {p : Putter}
      → s.putter ≡ p
      → (k : ℕ) → 0 < k
      → k ≤ s.size
      → awake (s.getter (s.slot k)) ≡ reached s.place p k
  woke_at h k pos le = woke k pos le ∙ ap (λ p. reached s.place p k) h

  -- The link of a node of the list leads to the next one.
  pub successor :
      (node k : ℕ)
      → s.slot (s.place node) ≡ node
      → s.place node ≤ s.size
      → s.future.next node ≡ some k
      → (s.place node < s.size)
        × (s.slot (suc (s.place node)) ≡ k)
        × (s.place k ≡ suc (s.place node))
  successor node k at_node le link = (
    inside,
    next_one,
    ground (arith, next_one, place_slot (suc (s.place node)), inside, ap s.place next_one),
  )
    where
      inside : s.place node < s.size
      inside = ground (
        arith,
        last_link,
        le,
        link,
        at_node,
        ap (λ x. s.future.next x) at_node,
        ap (λ g. s.future.next (s.slot g)),
      )

      next_one : s.slot (suc (s.place node)) ≡ k
      next_one = ground (arith, joined (s.place node), inside, at_node, link)

  reads_first_Walk :
      {node left k : ℕ}
      → s.putter ≡ walking node (suc left) none
      → s.future.next node ≡ some k
      → Walk n (record s { putter = walking k left (some k) })
  reads_first_Walk {node} {left} {k} h link =
      let at_node = at_walk h in
      let (inside, next_one, place_k) = successor node k (at_node.0) (at_node.1) link in
      record {
        walked = ground (arith, at_node, inside, next_one, place_k, ap s.slot place_k);
        woke = λ j pos le. ground (arith, woke_at h j pos le, at_node, place_k);
      }

  reads_next_Walk :
      {node left r k : ℕ}
      → s.putter ≡ walking node (suc left) (some r)
      → s.future.next node ≡ some k
      → Walk n (record s { putter = waking k left (some r) })
  reads_next_Walk {node} {left} {r} {k} h link =
      let at_node = at_walk h in
      let (inside, next_one, place_k) = successor node k (at_node.0) (at_node.1) link in
      record {
        walked = ground (arith, at_node, inside, next_one, place_k, ap s.slot place_k);
        woke = λ j pos le. ground (arith, woke_at h j pos le, at_node, place_k);
      }

  leaves_Walk :
      {node : ℕ} {ret : Option ℕ}
      → s.putter ≡ walking node 0 ret
      → Walk n (record s { putter = returning ret })
  leaves_Walk {node} h =
      let at_node = at_walk h in
      let all : s.place node ≡ s.size = omega (arith, at_node) in
      record {
        walked = ground (arith, at_node, all, ap (first s.slot) all, ap (rest s.slot) all);
        woke = λ j pos le. ground (arith, woke_at h j pos le, all);
      }

  finishes_Walk : s.putter ≡ returning none → Walk n (record s { putter = finished })
  finishes_Walk h =
      let at_end = at_walk h in
      record {
        walked = ground (arith, at_end, ap (rest s.slot) (none_first s.slot s.size (at_end.1)));
        woke = λ j pos le. ground (arith, woke_at h j pos le, none_first s.slot s.size (at_end.1));
      }

  wake_awake :
      (node g : ℕ)
      → s.getter node ≡ suspended
      → s.slot g ≡ node
      → g ≤ s.size
      → (k : ℕ) → k ≤ s.size
      → awake (update s.getter node resumed (s.slot k))
        ≡ (if k == g then true else awake (s.getter (s.slot k)))
  wake_awake node g h at_g le k le_k = elim (ℕ_discrete k g) [
    | yes e ↦ ground (arith, at_g, ap s.slot e)
    | no ne ↦
        let apart : node ≢ s.slot k = λ e.
          ground (arith, ne, ap s.place e, ap s.place at_g, place_slot g le, place_slot k le_k) in
        ground (arith, ne, apart)
  ]

  -- Waking a deque changes no count.
  wake_WalkAt :
      {node : ℕ} (woken : List ℕ) (p : Putter)
      → s.getter node ≡ suspended
      → WalkAt (tickets n s) (ahead n s) s.size s.slot s.place woken p
      → WalkAt
          (tickets n (at s node resumed))
          (ahead n (at s node resumed))
          s.size
          s.slot
          s.place
          woken
          p
  wake_WalkAt {node} woken p h =
      subst₂ (λ t a. WalkAt t a s.size s.slot s.place woken p)
        (sym (total-same taken (suc n) s.getter node resumed h refl))
        (sym (total-same entering (suc n) s.getter node resumed h refl))

  resumes_Walk :
      {node left : ℕ} {ret : Option ℕ}
      → s.putter ≡ waking node left ret
      → s.getter node ≡ suspended
      → Walk n (record s {
        getter = update s.getter node resumed;
        putter = walking node left ret;
        woken = s.woken ++ node ∷ [];
      })
  resumes_Walk {node} {left} {ret} h asleep =
      let at_node = at_walk h in
      record {
        walked =
            wake_WalkAt (s.woken ++ node ∷ []) (walking node left ret) asleep
              (ground (arith, at_node, rest-snoc s.slot (s.place node)));
        woke = λ k pos le. ground (
          arith,
          woke_at h k pos le,
          at_node,
          wake_awake node (s.place node) asleep (at_node.0) (omega (arith, at_node)) k le,
        );
      }

  resumes_returned_Walk :
      {r : ℕ}
      → s.putter ≡ returning (some r)
      → s.getter r ≡ suspended
      → Walk n (record s {
        getter = update s.getter r resumed;
        putter = finished;
        woken = s.woken ++ r ∷ [];
      })
  resumes_returned_Walk {r} h asleep =
      let at_end = at_walk h in
      record {
        walked = wake_WalkAt (s.woken ++ r ∷ []) finished asleep (ground (arith, at_end));
        woke = λ k pos le. ground (arith, woke_at h k pos le, at_end, wake_awake r 1 asleep);
      }

  starts_WalkAt :
      (b : Bool)
      → s.putter ≡ stored
      → s.future.count ≡ tickets n s
      → b ≡ ltb 0 s.future.count
      → WalkAt
          (tickets n s)
          (ahead n s)
          s.size
          s.slot
          s.place
          s.woken
          (if b then walking 0 s.future.count none else returning none)
  starts_WalkAt true h counted e =
      ground
        (arith, at_walk h, slot_zero, place_zero, ap s.slot place_zero, ap (rest s.slot) place_zero)
  starts_WalkAt false h counted e =
      let empty : s.size ≡ 0 = ground (arith, at_walk h, e) in
      ground (arith, at_walk h, ap (rest s.slot) empty)

  starts_reached :
      (b : Bool)
      → (0 < s.size → b ≡ true)
      → (k : ℕ) → 0 < k
      → k ≤ s.size
      → reached s.place (if b then walking 0 s.future.count none else returning none) k ≡ false
  starts_reached true h k pos le = ground (arith, place_zero)
  starts_reached false h k pos le = ground (arith, h)

  announces_Walk :
      s.putter ≡ stored
      → s.future.count ≡ tickets n s
      → s.future.count < 2 ^ 31
      → Walk n (record s {
        future = fetch_add (2 ^ 31) s.future;
        putter =
            if ltb 0 s.future.count && not (ready s.future)
            then walking 0 s.future.count none
            else returning none;
      })
  announces_Walk h counted few = record {
    walked = starts_WalkAt (ltb 0 s.future.count && not (ready s.future)) h counted (ground arith);
    woke = λ k pos le.
        woke_at h k pos le
        ∙ sym (
            starts_reached (ltb 0 s.future.count && not (ready s.future))
              (λ some_wait. ground (arith, at_walk h, some_wait)) k pos le);
  }

pub Walk-Put :
    {n v : ℕ} {s t : System}
    → suc n < 2 ^ 31
    → Put v s t
    → Counts n v s
    → Chain s
    → Walk n s
    → Walk n t
Walk-Put few (stores h) counts c w = record { walked = at_walk c w h; woke = woke_at c w h }
Walk-Put {n} {s = s} few (announces h) counts c w =
    announces_Walk c w h counted (omega (arith, counted, tickets-le (suc n) s.getter))
  where
    counted : s.future.count ≡ tickets n s
    counted = ground (arith, counts.counted, h)
Walk-Put few (reads_first h link) counts c w = reads_first_Walk c w h link
Walk-Put few (reads_next h link) counts c w = reads_next_Walk c w h link
Walk-Put few (resumes h asleep) counts c w = resumes_Walk c w h asleep
Walk-Put few (leaves h) counts c w = leaves_Walk c w h
Walk-Put few (finishes h) counts c w = finishes_Walk c w h
Walk-Put few (resumes_returned h asleep) counts c w = resumes_returned_Walk c w h asleep
