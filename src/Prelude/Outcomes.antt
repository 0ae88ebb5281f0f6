-- ===== src/Prelude/Outcomes.antt =====
-- What a call of the runtime comes to: a value, a failed assertion, or an access out of bounds.
use Prim.Native.Nat.{ℕ}
use mathlib.Core.Path.{◌≡◌, refl, ap}
use mathlib.Core.Bool.{Bool, true, false}
use mathlib.Core.Option.{Option, none, some}

-- `abort` is a failed assertion or a call of `__cilkrts_bug`, `fault` an access out of bounds or
-- through a null pointer.
pub data Outcome {ℓ} (A : Type ℓ) : Type ℓ where
  ok : A → Outcome A
  abort : Outcome A
  fault : Outcome A

infixl 5 ◌>>=◌
abbrev pub ◌>>=◌ {ℓ κ} : {A : Type ℓ} {B : Type κ} → Outcome A → (A → Outcome B) → Outcome B
ok a >>= f = f a
abort >>= f = abort
fault >>= f = fault

infixl 5 ◌>>◌
abbrev pub ◌>>◌ {ℓ} : {B : Type ℓ} → Outcome (Unit {0}) → Outcome B → Outcome B
m >> k = m >>= λ _. k

abbrev pub check : Bool → Outcome (Unit {0})
check true = ok tt
check false = abort

abbrev pub in_bounds : Bool → Outcome (Unit {0})
in_bounds true = ok tt
in_bounds false = fault

abbrev pub is_some {ℓ} : {A : Type ℓ} → Option A → Bool
is_some none = false
is_some (some a) = true

abbrev pub deref : Option ℕ → Outcome ℕ
deref none = fault
deref (some p) = ok p

pub bind_assoc {ℓ} :
    {A B C : Type ℓ} (r : Outcome A) (f : A → Outcome B) (g : B → Outcome C)
    → (r >>= f >>= g) ≡ (r >>= λ a. (f a >>= g))
bind_assoc (ok a) f g = refl
bind_assoc abort f g = refl
bind_assoc fault f g = refl

-- Two ways to go on that agree.
pub bind_ext {ℓ} :
    {A B : Type ℓ} {f g : A → Outcome B} (eq : (a : A) → f a ≡ g a) (r : Outcome A)
    → r >>= f ≡ r >>= g
bind_ext eq (ok a) = eq a
bind_ext eq abort = refl
bind_ext eq fault = refl

-- A chain of calls that succeeds, step by step.
pub bind_ok {ℓ κ} :
    {A : Type ℓ} {B : Type κ} (f : A → Outcome B) (b : B) (m : Outcome A)
    → m >>= f ≡ ok b
    → (a : A) × (f a ≡ ok b) × (m ≡ ok a)
bind_ok f b (ok a) ran = (a, ran, refl)
bind_ok f b abort ran = absurd (cc)
bind_ok f b fault ran = absurd (cc)

pub ok_inj {ℓ} : {A : Type ℓ} {a b : A} → ok a ≡ ok b → a ≡ b
ok_inj {A} {a} e = ap (λ (o : Outcome A). elim o [ ok x ↦ x | abort ↦ a | fault ↦ a ]) e
