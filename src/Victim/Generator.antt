-- ===== src/Victim/Generator.antt =====
-- The generator of cilk-l/runtime/scheduler.c never reaches 0, where it would stay, and runs through
-- its states without merging two of them.
use cilk_l.Prelude.{ℕ, ◌*◌, ◌%◌, ◌<◌, ◌≡◌, arith}
use cilk_l.Victim.{rngmod, myrand, mysrand}

-- The factor that undoes `rngmul`.
abbrev pub inverse : ℕ
inverse = 3866465487

pub unrand : ℕ → ℕ
unrand r = inverse * r % rngmod

pub unrand-myrand : (state : ℕ) → state < rngmod → unrand (myrand state) ≡ state
unfolding myrand unrand
unrand-myrand state lt = omega arith

pub myrand-unrand : (r : ℕ) → r < rngmod → myrand (unrand r) ≡ r
unfolding myrand unrand
myrand-unrand r lt = omega arith

-- A number not 0 is drawn in some state not 0.
pub state-drawn : (r : ℕ) → 0 < r → r < rngmod → (0 < unrand r) × (unrand r < rngmod)
unfolding unrand
state-drawn r pos lt = omega arith

-- `mysrand` makes any seed a state from 1 to `rngmod - 1`, and `myrand` keeps the states in that range
-- and is one to one on it: a multiplication undoes it, on either side.
pub myrand_lem :
    ((seed : ℕ) → (0 < mysrand seed) × (mysrand seed < rngmod))
    × ((s : ℕ) → 0 < s → s < rngmod → (0 < myrand s) × (myrand s < rngmod))
    × ((s : ℕ) → s < rngmod → unrand (myrand s) ≡ s)
    × ((s : ℕ) → s < rngmod → myrand (unrand s) ≡ s)
unfolding myrand mysrand
myrand_lem = (λ seed. ground arith, λ s pos lt. omega arith, unrand-myrand, myrand-unrand)
