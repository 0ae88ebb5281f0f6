-- ===== src/CilkFor/Cover.antt =====
-- The calls of a loop's body are those of a serial loop over the range, a grain at a time.
use native.Mathlib.Nat.{mod-eq_of_lt, pow-le-pow_right, two-pow-succ, add-mod_left}
use cilk_l.Prelude.{
  ℕ, zero, suc, ◌+◌, ◌-◌, ◌/◌, ◌%◌, ◌^◌, ◌≤◌, ◌<◌, ◌≡◌, refl, ap, ◌∙◌, some, ltb, if◌then◌else◌,
  arith, Bool-cases, inl, inr, ltb→lt,
}
use cilk_l.CilkFor.{Strands, body, spawn, call_cilk_for_loop_body, both, cilk_for_recursive}

-- From left to right, the calls have the range from `low` to `high`: each begins where the one before
-- it ends, is not empty, has at most `grain` iterations, and its rank is one more than its first one.
unfoldable pub Covers : ℕ → Strands → ℕ → ℕ → Type 0
Covers grain (body c) low high =
    (c.low ≡ low) × (c.high ≡ high) × (low < high) × (high ≤ low + grain) × (c.rank ≡ suc low)
Covers grain (spawn l r) low high = (mid : ℕ) × Covers grain l low mid × Covers grain r mid high

trip_count : (m low high : ℕ) → low ≤ high → high < m → (high + m - low) % m ≡ high - low
trip_count m low high le lt =
    let e : high + m - low ≡ m + (high - low) = omega arith in
    ap (λ k. k % m) e ∙ add-mod_left m (high - low) ∙ mod-eq_of_lt (omega arith)

midpoint :
    (m low high : ℕ) → low ≤ high → high < m → (low + (high - low) / 2) % m ≡ low + (high - low) / 2
midpoint m low high le lt = mod-eq_of_lt (omega arith)

-- One level of the recursion on a range that does not wrap.
pub cilk_for_recursive-suc :
    (depth w grain low high : ℕ)
    → low ≤ high
    → high < 2 ^ w
    → cilk_for_recursive (suc depth) w grain low high ≡ (
        let mid = low + (high - low) / 2 in
        if ltb grain (high - low)
        then both
            (cilk_for_recursive depth w grain low mid)
            (cilk_for_recursive depth w grain mid high)
        else some (call_cilk_for_loop_body low high))
unfolding cilk_for_recursive
cilk_for_recursive-suc depth w grain low high le lt =
    rw (trip_count (2 ^ w) low high le lt, midpoint (2 ^ w) low high le lt) refl

call_cilk_for_loop_body-Covers :
    (w grain low high : ℕ)
    → w ≤ 64
    → low < high
    → high < 2 ^ w
    → high ≤ low + grain
    → Covers grain (call_cilk_for_loop_body low high) low high
unfolding Covers
call_cilk_for_loop_body-Covers w grain low high w64 lt top small =
    let wide : 2 ^ w ≤ 2 ^ 64 = pow-le-pow_right (omega arith) w64 in
    let rank : (low + 1) % 2 ^ 64 ≡ low + 1 = mod-eq_of_lt (omega arith) in
    (refl, refl, lt, small, omega arith)

-- A depth of one more than the logarithm of the range is enough.
pub cilk_for_recursive_lem :
    (depth w grain low high : ℕ)
    → w ≤ 64
    → 0 < grain
    → low < high
    → high < 2 ^ w
    → high ≤ low + 2 ^ depth
    → (t : Strands) × (cilk_for_recursive (suc depth) w grain low high ≡ some t)
      × Covers grain t low high
unfolding Covers
cilk_for_recursive_lem zero w grain low high w64 pos lt top deep = (
  call_cilk_for_loop_body low high,
  cilk_for_recursive-suc zero w grain low high (omega arith) top ∙ ground arith,
  call_cilk_for_loop_body-Covers w grain low high w64 lt top (omega arith),
)
cilk_for_recursive_lem (suc d) w grain low high w64 pos lt top deep =
    elim (Bool-cases (ltb grain (high - low))) [
      | inr small ↦
          let le : high ≤ low + grain = ground arith in
          (
            call_cilk_for_loop_body low high,
            cilk_for_recursive-suc (suc d) w grain low high (omega arith) top ∙ rw small refl,
            call_cilk_for_loop_body-Covers w grain low high w64 lt top le,
          )
      | inl large ↦
          let big = ltb→lt grain (high - low) large in
          let twice = two-pow-succ d in
          let mid = low + (high - low) / 2 in
          let (l, el, cl) =
            cilk_for_recursive_lem d w grain low mid w64 pos (omega arith) (omega arith)
              (omega arith) in
          let (r, er, cr) =
            cilk_for_recursive_lem d w grain mid high w64 pos (omega arith) (omega arith)
              (omega arith) in
          (
            spawn l r,
            cilk_for_recursive-suc (suc d) w grain low high (omega arith) top
                ∙ rw (large, el, er) refl,
            (mid, cl, cr),
          )
    ]
