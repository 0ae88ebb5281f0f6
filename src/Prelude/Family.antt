-- ===== src/Prelude/Family.antt =====
-- Families indexed by numbers: arrays and memories as functions, their updates and windows.
use Prim.Native.Nat.{ℕ, zero, suc, ◌+◌, ◌≤◌, ◌<◌}
use mathlib.Core.Path.{◌≡◌, refl, sym, ap, ap₂, ◌∙◌}
use mathlib.Core.Logic.{◌≢◌, ◌⊎◌}
use mathlib.Core.List.{List, [], ◌∷◌, ◌++◌}
use native.Mathlib.Omega.{arith}
use native.Mathlib.Decide.{ℕ_discrete}
use cilk_l.Prelude.Tests.{◌==◌, if◌then◌else◌}

module _ {ℓ} {A : Type ℓ} where
  -- `f[i] = a`
  abbrev pub update : (ℕ → A) → ℕ → A → ℕ → A
  update f i a j = if i == j then a else f j

  -- The `n` entries from index `h` on.
  abbrev pub window : (ℕ → A) → ℕ → ℕ → List A
  window f h zero = []
  window f h (suc n) = f h ∷ window f (suc h) n

module _ {ℓ} {A : Type ℓ} where
  pub update_self : (f : ℕ → A) (i : ℕ) (a : A) → update f i a i ≡ a
  update_self f i a = ground arith

  pub update_ne : (f : ℕ → A) (i j : ℕ) (a : A) → i ≢ j → update f i a j ≡ f j
  update_ne f i j a h = ground arith

  pub window-snoc : (f : ℕ → A) (h n : ℕ) → window f h (suc n) ≡ window f h n ++ (f (h + n) ∷ [])
  window-snoc f h zero = ap (λ k. f k ∷ []) (omega arith)
  window-snoc f h (suc n) =
      ap (λ l. f h ∷ l)
        (window-snoc f (suc h) n ∙ ap (λ k. window f (suc h) n ++ (f k ∷ [])) (omega arith))

  -- A write outside the window leaves it as it is.
  pub window-update :
      (f : ℕ → A) (h n i : ℕ) (a : A)
      → (i < h) ⊎ (h + n ≤ i)
      → window (update f i a) h n ≡ window f h n
  window-update f h zero i a out = refl
  window-update f h (suc n) i a out =
      ap₂ ◌∷◌ (update_ne f i h a (omega arith)) (window-update f (suc h) n i a (omega arith))

  pub window-eq :
      (f g : ℕ → A) (h n : ℕ)
      → ((i : ℕ) → h ≤ i → i < h + n → f i ≡ g i)
      → window f h n ≡ window g h n
  window-eq f g h zero e = refl
  window-eq f g h (suc n) e =
      ap₂ ◌∷◌ (e h (omega arith) (omega arith))
        (window-eq f g (suc h) n (λ i a b. e i (omega arith) (omega arith)))

-- f 0 + … + f (n - 1)
unfoldable pub total : ℕ → (ℕ → ℕ) → ℕ
total zero f = 0
total (suc n) f = total n f + f n

pub total-zero : (f : ℕ → ℕ) → total 0 f ≡ 0
unfolding total
total-zero f = refl

pub total-suc : (n : ℕ) (f : ℕ → ℕ) → total (suc n) f ≡ total n f + f n
unfolding total
total-suc n f = refl

pub total-eq : (n : ℕ) (f g : ℕ → ℕ) → ((i : ℕ) → i < n → f i ≡ g i) → total n f ≡ total n g
unfolding total
total-eq zero f g h = refl
total-eq (suc n) f g h =
    omega (arith, total-eq n f g (λ i lt. h i (omega arith)), h n (omega arith))

-- Two families that differ at one index `i < n` only.
pub total-change :
    (n : ℕ) (f g : ℕ → ℕ) (i : ℕ)
    → i < n
    → ((j : ℕ) → j ≢ i → f j ≡ g j)
    → total n f + g i ≡ total n g + f i
unfolding total
total-change zero f g i lt h = absurd (omega arith)
total-change (suc n) f g i lt h = elim (ℕ_discrete i n) [
  | yes e ↦
      let same = total-eq n f g (λ j below. h j (omega arith)) in
      let fe : f n ≡ f i = ap f (omega arith) in
      let ge : g n ≡ g i = ap g (omega arith) in omega arith
  | no ne ↦ omega (arith, total-change n f g i (omega arith) h, h n (omega arith))
]

-- `f[i] = a` changes the weight of the family by that of `a` less that of the old entry.
pub total-update {ℓ} :
    {A : Type ℓ} (w : A → ℕ) (n : ℕ) (f : ℕ → A) (i : ℕ) (a : A)
    → i < n
    → total n (λ j. w (update f i a j)) + w (f i) ≡ total n (λ j. w (f j)) + w a
total-update w n f i a lt =
    let changed =
      total-change n (λ j. w (f j)) (λ j. w (update f i a j)) i lt
        (λ j ne. ap w (sym (update_ne f i j a (λ e. ne (sym e))))) in
    let here = ap w (update_self f i a) in omega arith

pub total-le : (n : ℕ) (f : ℕ → ℕ) → ((i : ℕ) → f i ≤ 1) → total n f ≤ n
unfolding total
total-le zero f small = omega arith
total-le (suc n) f small = omega (arith, small n, total-le n f small)

pub total-member : (n : ℕ) (f : ℕ → ℕ) (i : ℕ) → i < n → f i ≤ total n f
unfolding total
total-member zero f i lt = absurd (omega arith)
total-member (suc n) f i lt = elim (ℕ_discrete i n) [
  | yes e ↦ let here : f n ≡ f i = ap f (sym e) in omega arith
  | no ne ↦ omega (arith, total-member n f i (omega arith))
]

pub total-positive : (n : ℕ) (f : ℕ → ℕ) → 0 < total n f → (i : ℕ) × (i < n) × (0 < f i)
unfolding total
total-positive zero f pos = absurd (omega arith)
total-positive (suc n) f pos = elim (ℕ_discrete (f n) 0) [
  | yes e ↦ let (i, lt, has) = total-positive n f (omega arith) in (i, omega arith, has)
  | no ne ↦ (n, omega arith, omega arith)
]
