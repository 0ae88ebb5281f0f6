-- ===== src/ReducerMap/Hash.antt =====
-- `hashfun` stays inside the table, and a power of two passes `is_power_of_2`.
use Prim.Native.Nat.{min, bit_and, digits, bit_and-bitwise}
use native.Mathlib.Nat.{two-pow-succ}
use cilk_l.Prelude.{ℕ, zero, suc, ◌+◌, ◌-◌, ◌/◌, ◌^◌, ◌≤◌, ◌<◌, ◌≡◌, refl, true, arith, ==_iff}
use cilk_l.ReducerMap.{is_power_of_2, scramble, hashfun}

-- Each digit of the result is at most that of the mask.
masked-le : (n a b : ℕ) → digits (λ b. zero) min n a b ≤ b
masked-le zero a b = omega arith
masked-le (suc n) zero b = omega arith
masked-le (suc n) (suc a) b = omega (arith, masked-le n (suc a / 2) (b / 2))

bit_and-le : (a b : ℕ) → bit_and a b ≤ b
bit_and-le a b = omega (arith, bit_and-bitwise a b, masked-le a a b)

pub hashfun-lt : (n key : ℕ) → 0 < n → hashfun n key < n
unfolding hashfun
hashfun-lt n key h = omega (arith, bit_and-le (scramble key) (n - 1))

pub pow-pos : (k : ℕ) → 0 < 2 ^ k
pow-pos zero = omega arith
pow-pos (suc k) = omega (arith, two-pow-succ k, pow-pos k)

-- The one digit of a power of two meets a zero in the number below.
digits-pow : (n k a b : ℕ) → a ≡ 2 ^ k → b + 1 ≡ 2 ^ k → digits (λ b. zero) min n a b ≡ 0
digits-pow zero k a b ea eb = refl
digits-pow (suc n) k zero b ea eb = refl
digits-pow (suc n) zero (suc a) b ea eb = omega (arith, masked-le n (suc a / 2) (b / 2))
digits-pow (suc n) (suc k) (suc a) b ea eb = omega (
  arith,
  two-pow-succ k,
  pow-pos k,
  digits-pow n k (suc a / 2) (b / 2) (omega (arith, two-pow-succ k))
      (omega (arith, two-pow-succ k, pow-pos k)),
)

pub is_power_of_2_lem : (k n : ℕ) → n ≡ 2 ^ k → is_power_of_2 n ≡ true
unfolding is_power_of_2
is_power_of_2_lem k n e = (==_iff (bit_and n (n - 1)) 0).1 (
    omega (arith, bit_and-bitwise n (n - 1), digits-pow n k n (n - 1) e (omega (arith, pow-pos k))))
