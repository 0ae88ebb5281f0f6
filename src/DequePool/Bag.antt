-- ===== src/DequePool/Bag.antt =====
-- A pool as the deques that it holds, and when it holds them soundly.
use mathlib.Core.List.{Perm, perm_append_comm}
use mathlib.Core.List.Perm
use mathlib.Core.Path.{subst}
use Prim.Native.Nat.add
use cilk_l.Prelude.{
  ℕ, zero, suc, ◌+◌, ◌≤◌, ◌<◌, ◌≡◌, refl, sym, inl, inr, true, Option, some, List, [], ◌∷◌, ◌++◌,
  arith, dec_lt, ℕ_discrete, window, window-snoc, window-update, update, update_self, update_ne, ok,
}
use cilk_l.DequePool.{at, Pool, State, Env, deque_pool_validate, all_set}

-- The deques of the pool, in the order of their positions.
abbrev pub contents : Pool → List (Option ℕ)
contents p = window p.array 0 p.size

-- Position `i` holds a deque of worker `w` that knows its position.
pub record Entry (w : ℕ) (s : State) (i : ℕ) (d : ℕ) : Type 0 where
  pub cell : s.pool.array i ≡ some d
  pub self : (s.items d).self ≡ at i
  pub worker : (s.items d).worker ≡ some w

pub record IsValid (w : ℕ) (s : State) : Type 0 where
  pub room : 0 < s.pool.capacity
  pub fits : s.pool.size ≤ s.pool.capacity
  pub entry : (i : ℕ) → i < s.pool.size → (d : ℕ) × Entry w s i d

pub all_set_of :
    (a : ℕ → Option ℕ) (n : ℕ) → ((i : ℕ) → i < n → (d : ℕ) × (a i ≡ some d)) → all_set a n ≡ true
unfolding all_set
all_set_of a zero h = refl
all_set_of a (suc n) h =
    let (d, e) = h n (omega arith) in rw e (all_set_of a n (λ i lt. h i (omega arith)))

pub validate-ok :
    (env : Env) (p : Pool) (w o : ℕ)
    → env.lock_owner w ≡ some o
    → all_set p.array p.size ≡ true
    → deque_pool_validate env p (some w) ≡ ok tt
unfolding deque_pool_validate
validate-ok env p w o e h = rw (e, h)

-- Two positions hold two deques.
pub entry_unique : {w : ℕ} {s : State} {i j d : ℕ} → Entry w s i d → Entry w s j d → i ≡ j
entry_unique a b = ground (arith, a.self, b.self)

-- Overwriting one cell of a window exchanges one entry.
window-exchange {ℓ} :
    {A : Type ℓ} (f : ℕ → A) (h n i : ℕ) (b : A)
    → h ≤ i
    → i < h + n
    → Perm (f i ∷ window (update f i b) h n) (b ∷ window f h n)
window-exchange f h zero i b le lt = absurd (omega arith)
window-exchange f h (suc n) i b le lt = elim (ℕ_discrete i h) [
  | yes e ↦
      subst (λ j. Perm (f j ∷ window (update f j b) h (suc n)) (b ∷ window f h (suc n))) (sym e)
        (rw (update_self f h b, window-update f (suc h) n h b (inl (omega arith)))
          (Perm.swap b (f h) (window f (suc h) n)))
  | no ne ↦
      Perm.trans
        (rw (update_ne f i h b ne) (Perm.swap (f h) (f i) (window (update f i b) (suc h) n)))
        (Perm.trans (Perm.cons (f h) (window-exchange f (suc h) n i b (omega arith) (omega arith)))
          (Perm.swap b (f h) (window f (suc h) n)))
]

-- Moving the last of `n + 1` cells over cell `i` takes out what stood there.
pub window-swap_remove {ℓ} :
    {A : Type ℓ} (f : ℕ → A) (n i : ℕ) (e : A)
    → i ≤ n
    → Perm (f i ∷ window (update (update f i (f n)) n e) 0 n) (window f 0 (suc n))
window-swap_remove f n i e le = elim (dec_lt i n) [
  | yes lt ↦
      rw (window-update (update f i (f n)) 0 n n e (inr (omega arith)), window-snoc f 0 n, add.zero)
        (Perm.trans (window-exchange f 0 n i (f n) (omega arith) (omega arith))
          (perm_append_comm (f n ∷ []) (window f 0 n)))
  | no ge ↦
      rw
        (
          window-update (update f i (f n)) 0 n n e (inr (omega arith)),
          window-update f 0 n i (f n) (inr (omega arith)),
          window-snoc f 0 n,
          add.zero,
        )
        (subst (λ j. Perm (f j ∷ window f 0 n) (window f 0 n ++ (f n ∷ []))) (last_is ge)
          (perm_append_comm (f n ∷ []) (window f 0 n)))
]
  where
    last_is : ¬ (i < n) → n ≡ i
    last_is ge = omega arith
