-- ===== src/Futures/Inv.antt =====
-- What holds of a future, its deques and its worker between any two steps, if no deque waits for
-- another future before `put` has returned.
use cilk_l.Prelude.{
  ℕ, zero, suc, ◌^◌, ◌≤◌, ◌<◌, ◌≡◌, refl, ◌≢◌, false, Option, arith, update, total, update_ne, ◌∙◌,
  ap,
}
use cilk_l.Futures.{
  Getter, idle, suspended, resumed, failed, System, new_future, Reach, start, by_getter, by_putter,
  by_reuse, by_follower,
}
use cilk_l.Futures.Moves.{
  Moved, turns, fetches, clears, swaps, links, Put, stores, announces, reads_first, reads_next,
  resumes, leaves, finishes, resumes_returned, getter_step-Moved, putter_step-Put,
}
use cilk_l.Futures.Chain.{Chain}
use cilk_l.Futures.Linking.{Chain-Moved, Chain-Put}
use cilk_l.Futures.Counts.{Counts, Counts-Moved, Counts-Put, ready_lem}
use cilk_l.Futures.Walk.{Walk}
use cilk_l.Futures.Entering.{Walk-Moved}
use cilk_l.Futures.Waking.{Walk-Put}

pub record Inv (n v : ℕ) (s : System) : Type 0 where
  pub outside : (i : ℕ) → n < i → s.getter i ≡ idle
  pub counts : Counts n v s
  pub chain : Chain s
  pub walk : Walk n s

outside-Moved : {i : ℕ} {s t : System} → Moved i s t → (j : ℕ) → i ≢ j → t.getter j ≡ s.getter j
outside-Moved {i} {s} (turns _ _) j ne = update_ne s.getter i j _ ne
outside-Moved {i} {s} (fetches _) j ne = update_ne s.getter i j _ ne
outside-Moved {i} {s} (clears _) j ne = update_ne s.getter i j _ ne
outside-Moved {i} {s} (swaps _) j ne = update_ne s.getter i j _ ne
outside-Moved {i} {s} (links _) j ne = update_ne s.getter i j _ ne

wake_idle : (g : ℕ → Getter) (k j : ℕ) → g k ≡ suspended → g j ≡ idle → update g k resumed j ≡ idle
wake_idle g k j h e = ground (arith, h, e, ap g)

outside-Put : {v : ℕ} {s t : System} → Put v s t → (j : ℕ) → s.getter j ≡ idle → t.getter j ≡ idle
outside-Put (stores _) j e = e
outside-Put (announces _) j e = e
outside-Put (reads_first _ _) j e = e
outside-Put (reads_next _ _) j e = e
outside-Put {s = s} (resumes {node} _ h) j e = wake_idle s.getter node j h e
outside-Put (leaves _) j e = e
outside-Put (finishes _) j e = e
outside-Put {s = s} (resumes_returned {r} _ h) j e = wake_idle s.getter r j h e

not_failed : {n v : ℕ} {s : System} → Counts n v s → (i : ℕ) → s.getter i ≢ failed
not_failed c i e = ground (arith, c.knows i, e)

total-nothing : (n : ℕ) → total n (λ i. 0) ≡ 0
unfolding total
total-nothing zero = refl
total-nothing (suc n) = omega (arith, total-nothing n)

new_Inv : (n v garbage : ℕ) (next : ℕ → Option ℕ) → Inv n v (new_future garbage next)
new_Inv n v garbage next = record {
  outside = λ i lt. refl;
  counts = record { counted = omega (arith, total-nothing (suc n)); result = tt; knows = λ i. tt };
  chain = record {
    head_idle = refl;
    slot_zero = refl;
    place_zero = refl;
    place_slot = λ k le. omega arith;
    slot_place = λ i e. ground arith;
    entered_slot = λ k pos le. absurd (omega arith);
    clear_link = λ i e. ground arith;
    last_link = ground arith;
    tail_at = refl;
    joined = λ k lt. absurd (omega arith);
  };
  walk = record {
    walked = (omega (arith, total-nothing (suc n)), refl);
    woke = λ k pos le. absurd (omega arith);
  };
}

module _ {n v : ℕ} (few : suc n < 2 ^ 31) where
  Inv-Moved : {i : ℕ} {s t : System} → 0 < i → i ≤ n → Moved i s t → Inv n v s → Inv n v t
  Inv-Moved {i} {s} {t} real le m inv = record {
    outside = λ j lt. outside-Moved m j (omega arith) ∙ inv.outside j lt;
    counts = counts;
    chain = Chain-Moved real m (not_failed counts i) inv.chain;
    walk =
        Walk-Moved i (omega arith) inv.chain inv.walk (not_failed counts i) m
          (ready_lem few inv.counts);
  }
    where
      counts : Counts n v t
      counts = Counts-Moved few inv.counts (omega arith) m

  Inv-Put : {s t : System} → Put v s t → Inv n v s → Inv n v t
  Inv-Put m inv = record {
    outside = λ j lt. outside-Put m j (inv.outside j lt);
    counts = Counts-Put few m inv.counts;
    chain = Chain-Put m inv.chain;
    walk = Walk-Put few m inv.counts inv.chain inv.walk;
  }

  pub Reach-Inv :
      (garbage : ℕ) (next : ℕ → Option ℕ) {s : System}
      → Reach n v false (new_future garbage next) s
      → Inv n v s
  Reach-Inv garbage next start = new_Inv n v garbage next
  Reach-Inv garbage next (by_getter a i r real le e) =
      Inv-Moved real le (getter_step-Moved i a e) (Reach-Inv garbage next r)
  Reach-Inv garbage next (by_putter a r e) =
      Inv-Put (putter_step-Put v a e) (Reach-Inv garbage next r)
  Reach-Inv garbage next (by_reuse i reused r e) = absurd (ground arith)
  Reach-Inv garbage next (by_follower i k reused r e) = absurd (ground arith)
