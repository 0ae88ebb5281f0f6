-- ===== src/IoWorker/Requests.antt =====
-- The operations of one kind on one file, in a list of operations and in the maps of the worker.
use cilk_l.Prelude.{
  ℕ, ◌≡◌, refl, ap, ◌⊎◌, inl, inr, Bool, true, false, ◌&&◌, List, [], ◌∷◌, ◌++◌, map, arith,
  if◌then◌else◌, ◌==◌, ℕ_discrete, Bool-cases,
}
use mathlib.Core.Path.{subst₂}
use cilk_l.IoWorker.{
  Kind, iotype_read, iotype_write, same_kind, Op, assign, is_empty, Event, triggered, popped,
  end_of_round,
}

abbrev pub is_of : Kind → ℕ → Op → Bool
is_of k fd op = same_kind op.kind k && (op.fildes == fd)

-- The futures of the operations of one kind on one file.
abbrev pub futs : Kind → ℕ → List Op → List ℕ
futs k fd [] = []
futs k fd (op ∷ ops) = if is_of k fd op then op.fut ∷ futs k fd ops else futs k fd ops

abbrev pub popped_ops : List Event → List Op
popped_ops [] = []
popped_ops (popped op ∷ events) = op ∷ popped_ops events
popped_ops (_ ∷ events) = popped_ops events

-- All of the operations are of this kind and on this file.
abbrev pub AllOf : Kind → ℕ → List Op → Type 0
AllOf k fd [] = Unit
AllOf k fd (op ∷ ops) = (op.kind ≡ k) × (op.fildes ≡ fd) × AllOf k fd ops

pub futs-++ :
    (k : Kind) (fd : ℕ) (xs ys : List Op) → futs k fd (xs ++ ys) ≡ futs k fd xs ++ futs k fd ys
futs-++ k fd [] ys = refl
futs-++ k fd (x ∷ xs) ys = ground (arith, futs-++ k fd xs ys)

pub popped_ops-++ : (xs ys : List Event) → popped_ops (xs ++ ys) ≡ popped_ops xs ++ popped_ops ys
popped_ops-++ [] ys = refl
popped_ops-++ (popped op ∷ xs) ys = ap (λ l. op ∷ l) (popped_ops-++ xs ys)
popped_ops-++ (triggered k fd ∷ xs) ys = popped_ops-++ xs ys
popped_ops-++ (end_of_round ∷ xs) ys = popped_ops-++ xs ys

pub same_kind-true : (k : Kind) → same_kind k k ≡ true
same_kind-true iotype_read = refl
same_kind-true iotype_write = refl

pub same_kind-eq : (j k : Kind) → same_kind j k ≡ true → j ≡ k
same_kind-eq iotype_read iotype_read e = refl
same_kind-eq iotype_write iotype_write e = refl
same_kind-eq iotype_read iotype_write e = absurd (ground arith)
same_kind-eq iotype_write iotype_read e = absurd (ground arith)

pub key_cases :
    (j k : Kind) (fd gd : ℕ) → ((j ≡ k) × (fd ≡ gd)) ⊎ (same_kind j k && (fd == gd) ≡ false)
key_cases j k fd gd = elim (Bool-cases (same_kind j k)) [
  | inr other ↦ inr (ground (arith, other))
  | inl same ↦ elim (ℕ_discrete fd gd) [
    | yes e ↦ inl (same_kind-eq j k same, e)
    | no ne ↦ inr (ground (arith, ne))
  ]
]

pub futs-AllOf :
    (k : Kind) (fd : ℕ) (ops : List Op) → AllOf k fd ops → futs k fd ops ≡ map (λ op. op.fut) ops
futs-AllOf k fd [] all = refl
futs-AllOf k fd (op ∷ ops) (kind, file, all) =
    ground (arith, futs-AllOf k fd ops all, ap (λ j. same_kind j k) kind, same_kind-true k, file)

pub futs-other :
    (j k : Kind) (fd gd : ℕ) (ops : List Op)
    → AllOf j fd ops
    → same_kind j k && (fd == gd) ≡ false
    → futs k gd ops ≡ []
futs-other j k fd gd [] all other = refl
futs-other j k fd gd (op ∷ ops) (kind, file, all) other =
    ground (arith, futs-other j k fd gd ops all other, ap (λ j. same_kind j k) kind, file, other)

pub assign_self :
    {A : Type 0} (f : Kind → ℕ → A) (k : Kind) (fd : ℕ) (a : A) → assign f k fd a k fd ≡ a
assign_self f k fd a = ground (arith, same_kind-true k)

pub still_some :
    (ops finished left : List Op)
    → map (λ op. op.fut) finished ++ map (λ op. op.fut) left ≡ map (λ op. op.fut) ops
    → is_empty left ≡ false
    → is_empty ops ≡ false
still_some ops [] [] e some_left = absurd (ground arith)
still_some [] [] (op ∷ left) e some_left = absurd (ground (arith, e))
still_some [] (f ∷ finished) left e some_left = absurd (ground (arith, e))
still_some (op ∷ ops) _ left e some_left = refl

pub AllOf-snoc :
    (k : Kind) (fd : ℕ) (ops : List Op) (op : Op)
    → AllOf k fd ops
    → op.kind ≡ k
    → op.fildes ≡ fd
    → AllOf k fd (ops ++ op ∷ [])
AllOf-snoc k fd [] op all kind file = (kind, file, tt)
AllOf-snoc k fd (x ∷ ops) op (kind_x, file_x, all) kind file =
    (kind_x, file_x, AllOf-snoc k fd ops op all kind file)

pub map_snoc :
    (ops : List Op) (op x : Op)
    → op.fut ≡ x.fut
    → map (λ op. op.fut) (ops ++ op ∷ []) ≡ map (λ op. op.fut) ops ++ x.fut ∷ []
map_snoc [] op x e = ap (λ i. i ∷ []) e
map_snoc (y ∷ ops) op x e = ap (λ l. y.fut ∷ l) (map_snoc ops op x e)

pub is_empty-snoc : (ops : List Op) (op : Op) → is_empty (ops ++ op ∷ []) ≡ false
is_empty-snoc [] op = refl
is_empty-snoc (x ∷ ops) op = refl

pub nil_of_empty : (ops : List Op) → is_empty ops ≡ true → ops ≡ []
nil_of_empty [] e = refl
nil_of_empty (op ∷ ops) e = absurd (ground arith)

pub by_key :
    (P : Kind → ℕ → Type 0) (k : Kind) (fd : ℕ)
    → P k fd
    → ((j : Kind) (gd : ℕ) → same_kind k j && (fd == gd) ≡ false → P j gd)
    → (j : Kind) (gd : ℕ) → P j gd
by_key P k fd here there j gd = elim (key_cases k j fd gd) [
  | inl (kind, file) ↦ subst₂ P kind file here
  | inr other ↦ there j gd other
]
