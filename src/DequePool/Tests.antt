-- ===== src/DequePool/Tests.antt =====
-- Runs of the pool's operations on small inputs.
use mathlib.Core.List.{Perm}
use cilk_l.Prelude.{
  ℕ, zero, suc, ◌<◌, ◌≡◌, refl, ◌≢◌, false, none, some, [], ◌∷◌, arith, update, ◌>>=◌, ok, fault,
}
use cilk_l.DequePool.{
  at, invalid, Item, State, Env, deque_pool_init, deque_pool_add, deque_pool_remove,
  deque_pool_validate,
}
use cilk_l.DequePool.Bag.{contents, Entry, IsValid}
use cilk_l.DequePool.Add.{deque_pool_add_lem}
use cilk_l.DequePool.Remove.{deque_pool_remove_lem}

abbrev env : Env
env = record { tls_worker = 0; lock_owner = λ w. some 0; malloc = λ n. some (λ i. none) }

abbrev loose : Item
loose = record { self = invalid; worker = none; resumable = false }

abbrev seated : ℕ → Item
seated i = record { self = at i; worker = some 1; resumable = false }

-- Worker 1 holds the deques 5 and 6 and no more room.
abbrev pair : State
pair = record {
  pool = record {
    array = update (update (λ i. none) 0 (some 5)) 1 (some 6);
    size = 2;
    capacity = 2;
  };
  items = update (update (λ d. loose) 5 (seated 0)) 6 (seated 1);
}

pair-entry : (i : ℕ) → i < 2 → (d : ℕ) × Entry 1 pair i d
pair-entry zero lt = (5, record { cell = refl; self = refl; worker = refl })
pair-entry (suc zero) lt = (6, record { cell = refl; self = refl; worker = refl })
pair-entry (suc (suc i)) lt = absurd (omega arith)

pair-IsValid : IsValid 1 pair
pair-IsValid = record { room = omega arith; fits = omega arith; entry = pair-entry }

deque_pool_add_lem_example :
    (t : State) × (deque_pool_add env 1 false 7 pair ≡ ok t)
    × IsValid 1 t
    × (contents t.pool ≡ some 5 ∷ some 6 ∷ some 7 ∷ [])
    × (t.items 7 ≡ seated 2)
    × ((e : ℕ) → e ≢ 7 → t.items e ≡ pair.items e)
deque_pool_add_lem_example =
    deque_pool_add_lem env 1 7 pair refl pair-IsValid (λ i. cc) (λ i. none) refl

deque_pool_remove_lem_example :
    (t : State) × (deque_pool_remove env 5 pair ≡ ok t)
    × IsValid 1 t
    × Perm (some 5 ∷ contents t.pool) (some 5 ∷ some 6 ∷ [])
    × ((t.items 5).self ≡ invalid)
    × ((t.items 5).worker ≡ none)
    × ((e : ℕ) → ((j : ℕ) → (pair.items e).self ≢ at j) → t.items e ≡ pair.items e)
deque_pool_remove_lem_example =
    deque_pool_remove_lem env 1 0 pair refl pair-IsValid 0 5 (omega arith)
      (record { cell = refl; self = refl; worker = refl })

-- An initial capacity of 0 writes the null pointer behind the array.
init_zero : deque_pool_init env 0 ≡ fault
unfolding deque_pool_init
init_zero = refl

remove_moves_last : (deque_pool_remove env 5 pair >>= λ t. ok (contents t.pool)) ≡ ok (some 6 ∷ [])
unfolding deque_pool_remove deque_pool_validate
remove_moves_last = refl
