-- ===== src/Futures/Safety.antt =====
-- What `get` returns, and that `put` wakes every deque that waits.
use cilk_l.Prelude.{
  ℕ, suc, ◌^◌, ◌≤◌, ◌<◌, ◌≡◌, refl, ◌≢◌, Bool, true, false, Option, none, some, [], ◌∷◌, ◌++◌,
  arith, total-member, if◌then◌else◌, ◌==◌, ◌∙◌, sym, ap,
}
use mathlib.Core.Path.{subst}
use cilk_l.Futures.{
  Getter, ticketed, cleared, swapped, linked, suspended, passed, late_done, waited, failed,
  finished, System, new_future, Reach,
}
use cilk_l.Futures.Counts.{entering, result_lem}
use cilk_l.Futures.Chain.{entered}
use cilk_l.Futures.Walk.{awake, reached, rest, ahead, WalkAt, tickets}
use cilk_l.Futures.Inv.{Inv, Reach-Inv}

-- The value with which `get` has returned.
abbrev pub returned : Getter → Option ℕ
returned (passed w) = some w
returned (late_done w) = some w
returned (waited w) = some w
returned _ = none

-- Between a ticket that is not negative and the end of its wait.
abbrev pub waits : Getter → Bool
waits ticketed = true
waits cleared = true
waits (swapped old) = true
waits linked = true
waits suspended = true
waits _ = false

-- For fewer than 2^31 - 1 deques, none of which waits for another future meanwhile: `get` never fails
-- its assertion, and what it returns, on each of its three ways, is the value that `put` was given,
-- which is then the future's result.
pub get_returns_result :
    (n v garbage : ℕ) (next : ℕ → Option ℕ) (s : System)
    → suc n < 2 ^ 31
    → Reach n v false (new_future garbage next) s
    → (i : ℕ)
    → (s.getter i ≢ failed)
      × ((w : ℕ) → returned (s.getter i) ≡ some w → (w ≡ v) × (s.future.result ≡ v))
get_returns_result n v garbage next s few r i = go (s.getter i) refl
  where
    inv : Inv n v s
    inv = Reach-Inv few garbage next r

    go :
        (g : Getter)
        → s.getter i ≡ g
        → (s.getter i ≢ failed)
          × ((w : ℕ) → returned (s.getter i) ≡ some w → (w ≡ v) × (s.future.result ≡ v))
    go g h = (
      λ e. ground (arith, inv.counts.knows i, e),
      λ w e. ground (arith, inv.counts.knows i, h, e, result_lem few inv.counts),
    )

not_waiting : (g : Getter) → entering g ≡ 0 → (entered g ≡ true → awake g ≡ true) → waits g ≡ false
not_waiting g out woken = ground (arith, out, woken)

-- For fewer than 2^31 - 1 deques, none of which waits for another future meanwhile: when `put` has
-- returned and the deque that it returned, if any, has been resumed, no deque waits any more, of those
-- that have a ticket which is not negative. All the deques that waited have been woken in the order in
-- which they swapped the tail, except that the first one is the last, and each of them once.
pub put_wakes_all :
    (n v garbage : ℕ) (next : ℕ → Option ℕ) (s : System)
    → suc n < 2 ^ 31
    → Reach n v false (new_future garbage next) s
    → s.putter ≡ finished
    → ((i : ℕ) → i ≤ n → waits (s.getter i) ≡ false)
      × (s.woken ≡ rest s.slot s.size ++ (if s.size == 0 then [] else s.slot 1 ∷ []))
      × ((i : ℕ)
          → entered (s.getter i) ≡ true
          → (s.slot (s.place i) ≡ i) × (0 < s.place i) × (s.place i ≤ s.size))
      × ((j k : ℕ) → j ≤ s.size → k ≤ s.size → s.slot j ≡ s.slot k → j ≡ k)
put_wakes_all n v garbage next s few r done = (
  λ i le.
      not_waiting (s.getter i)
        (omega (arith, total-member (suc n) (λ j. entering (s.getter j)) i, at_end.0))
        (λ e.
          let (there, pos, le_i) = inv.chain.slot_place i e in
          ap (λ j. awake (s.getter j)) (sym there)
          ∙ inv.walk.woke (s.place i) pos le_i
          ∙ ground (arith, done, pos, ap (λ p. reached s.place p (s.place i)) done)),
  at_end.1,
  inv.chain.slot_place,
  λ j k le_j le_k e.
      ground (arith, inv.chain.place_slot j le_j, inv.chain.place_slot k le_k, ap s.place e),
)
  where
    inv : Inv n v s
    inv = Reach-Inv few garbage next r

    at_end : WalkAt (tickets n s) (ahead n s) s.size s.slot s.place s.woken finished
    at_end =
        subst (WalkAt (tickets n s) (ahead n s) s.size s.slot s.place s.woken) done inv.walk.walked
