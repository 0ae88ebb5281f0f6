-- ===== src/Futures/Counts.antt =====
-- How many deques have a ticket, and what the tickets say of the result.
use cilk_l.Prelude.{
  ℕ, suc, ◌+◌, ◌^◌, ◌≤◌, ◌<◌, ◌≡◌, ◌≢◌, refl, sym, ap, ◌∙◌, ℕ_discrete, update_ne, total-eq, List,
  Bool, true, false, none, arith, update, total, total-update, total-le, ltb, not, ◌&&◌,
  if◌then◌else◌,
}
use mathlib.Core.Path.{subst}
use cilk_l.Futures.{
  Future, ready, Getter, idle, seen, ticketed, cleared, swapped, linked, suspended, resumed, late,
  passing, passed, late_done, waited, failed, Putter, computing, stored, walking, returning, System,
  at,
}
use cilk_l.Futures.Moves.{
  Turn, looks, passes, suspends, returns, returns_late, returns_passing, fails, fails_late,
  fails_passing, Moved, turns, fetches, clears, swaps, links, Put, stores, announces, reads_first,
  reads_next, resumes, leaves, finishes, resumes_returned,
}

-- The deque has a ticket.
abbrev pub taken : Getter → ℕ
taken idle = 0
taken seen = 0
taken passing = 0
taken (passed v) = 0
taken _ = 1

-- It has one that is not negative, and has not yet swapped the tail.
abbrev pub entering : Getter → ℕ
entering ticketed = 1
entering cleared = 1
entering _ = 0

-- `put` has taken the number of deques that wait.
abbrev pub announced : Putter → Bool
announced computing = false
announced stored = false
announced _ = true

-- What a deque knows: that the future is ready, and its value `v`.
abbrev pub Knows : ℕ → Bool → Getter → Type 0
Knows v a (passed w) = (a ≡ true) × (w ≡ v)
Knows v a (late_done w) = (a ≡ true) × (w ≡ v)
Knows v a (waited w) = (a ≡ true) × (w ≡ v)
Knows v a passing = a ≡ true
Knows v a late = a ≡ true
Knows v a resumed = a ≡ true
Knows v a failed = ⊥
Knows v a _ = Unit

abbrev pub Result : ℕ → Putter → ℕ → Type 0
Result v computing r = Unit
Result v _ r = r ≡ v

pub record Counts (n v : ℕ) (s : System) : Type 0 where
  pub counted :
      s.future.count
      ≡ total (suc n) (λ i. taken (s.getter i)) + (if announced s.putter then 2 ^ 31 else 0)
  pub result : Result v s.putter s.future.result
  pub knows : (i : ℕ) → Knows v (announced s.putter) (s.getter i)

taken-le : (g : Getter) → taken g ≤ 1
taken-le g = ground arith

pub tickets-le : (n : ℕ) (g : ℕ → Getter) → total n (λ i. taken (g i)) ≤ n
tickets-le n g = total-le n (λ i. taken (g i)) (λ i. taken-le (g i))

-- A weight changes by what deque `i` changes.
pub total-moved :
    {p : Getter} (w : Getter → ℕ) (n : ℕ) (g : ℕ → Getter) (i : ℕ) (q : Getter)
    → i < n
    → g i ≡ p
    → total n (λ j. w (update g i q j)) + w p ≡ total n (λ j. w (g j)) + w q
total-moved w n g i q lt h = omega (arith, total-update w n g i q lt, ap w h)

Turn-taken : {f : Future} {p q : Getter} → Turn f p q → q ≢ failed → taken q ≡ taken p
Turn-taken (looks _) ok = refl
Turn-taken (passes _) ok = refl
Turn-taken suspends ok = refl
Turn-taken (returns _) ok = refl
Turn-taken (returns_late _) ok = refl
Turn-taken (returns_passing _) ok = refl
Turn-taken (fails _) ok = refl
Turn-taken (fails_late _) ok = refl
Turn-taken (fails_passing _) ok = absurd (ok refl)

pub total-same :
    {p : Getter} (w : Getter → ℕ) (n : ℕ) (g : ℕ → Getter) (i : ℕ) (q : Getter)
    → g i ≡ p
    → w q ≡ w p
    → total n (λ j. w (update g i q j)) ≡ total n (λ j. w (g j))
total-same {p} w n g i q h same = total-eq n (λ j. w (update g i q j)) (λ j. w (g j)) each
  where
    each : (j : ℕ) → j < n → w (update g i q j) ≡ w (g j)
    each j lt = elim (ℕ_discrete i j) [
      | yes e ↦ ap w (ground (arith, e)) ∙ same ∙ ap w (sym h) ∙ ap w (ap g e)
      | no ne ↦ ap w (update_ne g i j q ne)
    ]

pub taken-fetched : (b : Bool) → taken (if b then late else ticketed) ≡ 1
taken-fetched true = refl
taken-fetched false = refl

fetched_Knows : (v : ℕ) {a : Bool} (b : Bool) → b ≡ a → Knows v a (if b then late else ticketed)
fetched_Knows v true e = sym e
fetched_Knows v false e = tt

Knows-later : (v : ℕ) (a : Bool) (g : Getter) → Knows v a g → Knows v true g
Knows-later v a (passed w) k = (refl, k.1)
Knows-later v a (late_done w) k = (refl, k.1)
Knows-later v a (waited w) k = (refl, k.1)
Knows-later v a passing k = refl
Knows-later v a late k = refl
Knows-later v a resumed k = refl
Knows-later v a failed k = k
Knows-later v a _ k = tt

module _ {n v : ℕ} {s : System} (few : suc n < 2 ^ 31) (c : Counts n v s) where
  open c use {counted, result, knows}

  pub ready_lem : ready s.future ≡ announced s.putter
  ready_lem = ground (arith, tickets-le (suc n) s.getter)

  pub result_lem : announced s.putter ≡ true → s.future.result ≡ v
  result_lem e = go s.putter e result
    where
      go : (p : Putter) → announced p ≡ true → Result v p s.future.result → s.future.result ≡ v
      go computing e r = absurd (ground arith)
      go stored e r = absurd (ground arith)
      go _ e r = r

  Turn-Knows :
      {p q : Getter}
      → Turn s.future p q
      → Knows v (announced s.putter) p
      → Knows v (announced s.putter) q
  Turn-Knows (looks r) k = tt
  Turn-Knows (passes r) k = ground (arith, ready_lem, result_lem)
  Turn-Knows suspends k = tt
  Turn-Knows (returns r) k = ground (arith, ready_lem, result_lem)
  Turn-Knows (returns_late r) k = ground (arith, ready_lem, result_lem)
  Turn-Knows (returns_passing r) k = ground (arith, ready_lem, result_lem)
  Turn-Knows (fails r) k = ground (arith, ready_lem)
  Turn-Knows (fails_late r) k = ground (arith, ready_lem)
  Turn-Knows (fails_passing r) k = ground (arith, ready_lem)

  Knows-update :
      (i : ℕ) (q : Getter)
      → Knows v (announced s.putter) q
      → (j : ℕ) → Knows v (announced s.putter) (update s.getter i q j)
  Knows-update i q k j = ground (arith, k, knows j)

  pub Counts-Moved : {i : ℕ} {t : System} → i < suc n → Moved i s t → Counts n v t
  Counts-Moved {i} lt (turns {p} {q} move h) =
      let known = Turn-Knows move (subst (Knows v (announced s.putter)) h (knows i)) in
      let same = Turn-taken move (λ e. subst (Knows v (announced s.putter)) e known) in
      record {
        counted = omega (arith, counted, total-moved taken (suc n) s.getter i q lt h, same);
        result = result;
        knows = Knows-update i q known;
      }
  Counts-Moved {i} lt (fetches h) = record {
    counted = ground (
      arith,
      counted,
      total-moved taken (suc n) s.getter i fetched lt h,
      tickets-le (suc n) (update s.getter i fetched),
      taken-fetched (ready s.future),
    );
    result = result;
    knows = Knows-update i fetched (fetched_Knows v (ready s.future) ready_lem);
  }
    where
      fetched : Getter
      fetched = if ready s.future then late else ticketed
  Counts-Moved {i} lt (clears h) = record {
    counted = omega (arith, counted, total-moved taken (suc n) s.getter i cleared lt h);
    result = result;
    knows = Knows-update i cleared tt;
  }
  Counts-Moved {i} lt (swaps h) = record {
    counted =
        omega (arith, counted, total-moved taken (suc n) s.getter i (swapped s.future.tail) lt h);
    result = result;
    knows = Knows-update i (swapped s.future.tail) tt;
  }
  Counts-Moved {i} lt (links h) = record {
    counted = omega (arith, counted, total-moved taken (suc n) s.getter i linked lt h);
    result = result;
    knows = Knows-update i linked tt;
  }

  -- Between two places behind the one at which `put` takes the number of deques.
  later :
      {p q : Putter} {woken : List ℕ}
      → s.putter ≡ p
      → announced p ≡ true
      → announced q ≡ true
      → Counts n v (record s { putter = q; woken = woken })
  later {p} {q} h was now = record {
    counted = ground (arith, counted, h, was, now, ap announced h);
    result = behind q now (result_lem (ap announced h ∙ was));
    knows = λ i. subst (λ a. Knows v a (s.getter i)) (ap announced h ∙ was ∙ sym now) (knows i);
  }
    where
      behind : (q : Putter) → announced q ≡ true → s.future.result ≡ v → Result v q s.future.result
      behind computing now r = tt
      behind _ now r = r

  wakes : (k : ℕ) → s.getter k ≡ suspended → announced s.putter ≡ true → Counts n v (at s k resumed)
  wakes k h a = record {
    counted = ground (arith, counted, total-same taken (suc n) s.getter k resumed h refl);
    result = result;
    knows = Knows-update k resumed a;
  }

starts_announced :
    (b : Bool) (count : ℕ) → announced (if b then walking 0 count none else returning none) ≡ true
starts_announced true count = refl
starts_announced false count = refl

starts_Result :
    (b : Bool) (count : ℕ) {v r : ℕ}
    → r ≡ v
    → Result v (if b then walking 0 count none else returning none) r
starts_Result true count e = e
starts_Result false count e = e

pub Counts-Put : {n v : ℕ} {s t : System} → suc n < 2 ^ 31 → Put v s t → Counts n v s → Counts n v t
Counts-Put {v = v} {s} few (stores h) c = record {
  counted = ground (arith, c.counted, h);
  result = refl;
  knows = λ i. subst (λ a. Knows v a (s.getter i)) (ap announced h) (c.knows i);
}
Counts-Put {n} {v} {s} few (announces h) c = record {
  counted = ground (
    arith,
    c.counted,
    h,
    tickets-le (suc n) s.getter,
    starts_announced (ltb 0 s.future.count && not (ready s.future)) s.future.count,
  );
  result =
      starts_Result (ltb 0 s.future.count && not (ready s.future)) s.future.count
        (subst (λ p. Result v p s.future.result) h c.result);
  knows = λ i.
      subst (λ a. Knows v a (s.getter i))
        (sym (starts_announced (ltb 0 s.future.count && not (ready s.future)) s.future.count))
        (Knows-later v (announced s.putter) (s.getter i) (c.knows i));
}
Counts-Put few (reads_first h _) c = later few c h refl refl
Counts-Put few (reads_next h _) c = later few c h refl refl
Counts-Put few (resumes {node} h e) c = later few (wakes few c node e (ap announced h)) h refl refl
Counts-Put few (leaves h) c = later few c h refl refl
Counts-Put few (finishes h) c = later few c h refl refl
Counts-Put few (resumes_returned {r} h e) c =
    later few (wakes few c r e (ap announced h)) h refl refl
