-- ===== src/CilkFor/Grain.antt =====
-- A loop ends, and has each iteration once, in the grains that `grainsize` says.
use native.Mathlib.Nat.{mod-eq_of_lt, lt-div-mul-add, div-mul-le_self}
use cilk_l.Prelude.{
  ℕ, zero, suc, ◌+◌, ◌-◌, ◌*◌, ◌/◌, ◌%◌, ◌^◌, ◌≤◌, ◌<◌, ◌≡◌, ◌⊎◌, refl, true, false, some, arith,
  lt→ltb, ℤ, pos, negsuc, ap,
}
use cilk_l.Pedigree.{Node}
use cilk_l.CilkFor.{Globals, default_grainsize, grainsize, Strands, cilk_for_root, cilk_for}
use cilk_l.CilkFor.Cover.{Covers, cilk_for_recursive_lem}

-- The grain of a loop that asks for none: one under a tool, or an eighth of a worker's share, rounded
-- up, but not more than 2048.
unfoldable pub IsShare : Globals → ℕ → ℕ → Type 0
IsShare g count grain =
    (1 ≤ grain)
    × (grain ≤ 2048)
    × (g.under_ptool ≡ true → grain ≡ 1)
    × (g.under_ptool ≡ false → (count ≤ grain * (g.p * 8)) ⊎ (grain ≡ 2048))
    × ((grain - 1) * (g.p * 8) < count)

-- Dividing and rounding up.
ceiling :
    (count px : ℕ)
    → 0 < count
    → 0 < px
    → (let q = (count + px - 1) / px in (1 ≤ q) × (count ≤ q * px) × ((q - 1) * px < count))
ceiling count px trips wide =
    let q = (count + px - 1) / px in
    let below = div-mul-le_self (count + px - 1) px in
    let above = lt-div-mul-add {a = count + px - 1} wide in
    let reached : count ≤ q * px = omega (arith, above) in
    let least : 1 ≤ q = one_of_pos q px count trips reached in
    (least, reached, before q px count trips least below)
  where
    one_of_pos : (q px count : ℕ) → 0 < count → count ≤ q * px → 1 ≤ q
    one_of_pos zero px count trips h = absurd (omega arith)
    one_of_pos (suc q) px count trips h = omega arith

    before : (q px count : ℕ) → 0 < count → 1 ≤ q → q * px ≤ count + px - 1 → (q - 1) * px < count
    before zero px count trips h below = absurd (omega arith)
    before (suc q) px count trips h below =
        let e : suc q * px ≡ q * px + px = grind arith in
        let e' : (suc q - 1) * px ≡ q * px = ap (λ k. k * px) (omega arith) in omega arith

capped : (q px count : ℕ) → 2048 < q → (q - 1) * px < count → 2047 * px < count
capped q px count big h =
    let k = q - 2048 in
    let e : (q - 1) * px ≡ (2047 + k) * px = ap (λ k. k * px) (omega arith) in
    let e' : (2047 + k) * px ≡ 2047 * px + k * px = grind arith in omega arith

default_grainsize-IsShare :
    (w : ℕ) (g : Globals) (count : ℕ)
    → 0 < count
    → 0 < g.p
    → count + g.p * 8 ≤ 2 ^ w
    → IsShare g count (default_grainsize w g count)
unfolding default_grainsize IsShare
default_grainsize-IsShare w g count some_trips workers fits =
    let px = g.p * 8 in
    let exact : (count + px - 1) % 2 ^ w ≡ count + px - 1 = mod-eq_of_lt (omega arith) in
    let (least, reached, before) = ceiling count px some_trips (omega arith) in
    rw exact (ground (arith, capped ((count + px - 1) / px) px count))

-- The grain is the one that was asked for, if that is positive.
unfoldable pub IsChosen : Globals → ℤ → ℕ → ℕ → Type 0
IsChosen g (pos zero) count grain = IsShare g count grain
IsChosen g (pos (suc n)) count grain = grain ≡ suc n
IsChosen g (negsuc n) count grain = IsShare g count grain

-- No sum wraps: there is room above the trip count, or a grain is asked for.
unfoldable pub IsRoomy : ℕ → Globals → ℤ → ℕ → Type 0
IsRoomy w g (pos zero) count = count + g.p * 8 ≤ 2 ^ w
IsRoomy w g (pos (suc n)) count = count < 2 ^ w
IsRoomy w g (negsuc n) count = count + g.p * 8 ≤ 2 ^ w

grainsize-IsChosen :
    (w : ℕ) (g : Globals) (grain : ℤ) (count : ℕ)
    → 0 < count
    → 0 < g.p
    → IsRoomy w g grain count
    → IsChosen g grain count (grainsize w g grain count)
unfolding grainsize IsChosen IsRoomy
grainsize-IsChosen w g (pos zero) count trips workers h =
    default_grainsize-IsShare w g count trips workers h
grainsize-IsChosen w g (pos (suc n)) count trips workers h = refl
grainsize-IsChosen w g (negsuc n) count trips workers h =
    default_grainsize-IsShare w g count trips workers h

IsChosen-pos : (g : Globals) (grain : ℤ) (count n : ℕ) → IsChosen g grain count n → 0 < n
unfolding IsChosen IsShare
IsChosen-pos g (pos zero) count n h = omega arith
IsChosen-pos g (pos (suc k)) count n h = omega arith
IsChosen-pos g (negsuc k) count n h = omega arith

IsRoomy-lt :
    (w : ℕ) (g : Globals) (grain : ℤ) (count : ℕ)
    → 0 < g.p
    → IsRoomy w g grain count
    → count < 2 ^ w
unfolding IsRoomy
IsRoomy-lt w g (pos zero) count workers h = omega arith
IsRoomy-lt w g (pos (suc n)) count workers h = h
IsRoomy-lt w g (negsuc n) count workers h = omega arith

-- Take a loop of at least one trip, of 32 or 64 bits or another width up to 64, on at least one worker.
-- If a grain is asked for, or if eight times the workers fit above the trip count, the loop ends, and
-- its recursion is no deeper than the width and one. Its body is called on ranges that are not empty
-- and not longer than the grain, which follow one another from 0 to the trip count, each with a rank
-- one above its first trip. The grain is the one asked for; with none asked for it is 1 under a tool,
-- and otherwise the trips for each eighth of a worker, rounded up, but at most 2048. The worker's rank
-- goes up by two, modulo 2^64, for the empty spawn and at the end, before the sync that the compiler adds.
pub cilk_for_lem :
    (w : ℕ) (g : Globals) (grain : ℤ) (count : ℕ) (pedigree : Node)
    → w ≤ 64
    → 0 < count
    → 0 < g.p
    → IsRoomy w g grain count
    → (t : Strands) × (cilk_for (suc w) w g grain count pedigree
        ≡ some (some t, record pedigree { rank = (pedigree.rank + 2) % 2 ^ 64 }))
      × Covers (grainsize w g grain count) t 0 count
      × IsChosen g grain count (grainsize w g grain count)
unfolding cilk_for cilk_for_root
cilk_for_lem w g grain count pedigree w64 trips workers roomy =
    let chosen = grainsize-IsChosen w g grain count trips workers roomy in
    let top = IsRoomy-lt w g grain count workers roomy in
    let (t, e, c) =
      cilk_for_recursive_lem w w (grainsize w g grain count) 0 count w64
        (IsChosen-pos g grain count (grainsize w g grain count) chosen) trips top (omega arith) in
    let two : ((pedigree.rank + 1) % 2 ^ 64 + 1) % 2 ^ 64 ≡ (pedigree.rank + 2) % 2 ^ 64 =
      omega arith in
    (
      t,
      rw (lt→ltb 0 count trips, e) (ap (λ r. some (some t, record pedigree { rank = r })) two),
      c,
      chosen,
    )
