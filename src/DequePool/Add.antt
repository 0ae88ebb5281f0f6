-- ===== src/DequePool/Add.antt =====
-- `deque_pool_init` and `deque_pool_add` of cilk-l/runtime/deque_pool.c.
use Prim.Native.Nat.add
use cilk_l.Prelude.{
  ℕ, suc, ◌+◌, ◌*◌, ◌≤◌, ◌<◌, ◌≡◌, refl, ◌≢◌, true, Option, none, some, [], ◌∷◌, ◌++◌, arith,
  window-snoc, window-eq, ap₂, update, dec_lt, ℕ_discrete, if◌then◌else◌, ltb, ok,
}
use cilk_l.DequePool.{at, Item, Pool, State, Env, make_room, deque_pool_add, all_set}
use cilk_l.DequePool.Bag.{contents, Entry, IsValid, all_set_of, validate-ok}

-- With memory for an array of twice the size there is room for one more, and nothing is lost.
pub make_room-ok :
    (env : Env) (p : Pool)
    → 0 < p.capacity
    → p.size ≤ p.capacity
    → (cells : ℕ → Option ℕ) → env.malloc (2 * p.capacity) ≡ some cells
    → (q : Pool) × (make_room env p ≡ ok q)
      × (q.size ≡ p.size)
      × (q.size < q.capacity)
      × ((i : ℕ) → i < p.size → q.array i ≡ p.array i)
unfolding make_room
make_room-ok env p pos fits cells m = elim (ℕ_discrete p.size p.capacity) [
  | yes full ↦ (
    record {
      array = update (λ i. if ltb i p.size then p.array i else cells i) p.size none;
      size = p.size;
      capacity = 2 * p.capacity;
    },
    ground arith,
    refl,
    omega arith,
    λ i lt. ground arith,
  )
  | no room ↦ (p, ground arith, refl, omega arith, λ i lt. refl)
]

-- What the callers of `deque_pool_add` ensure: they hold the victim's lock and chose the pool by the
-- deque's flag, and the deque is in no pool.
module _ (env : Env) (victim : ℕ) (d : ℕ) (s : State)
    (locked : env.lock_owner victim ≡ some env.tls_worker) (valid : IsValid victim s)
    (apart : (i : ℕ) → (s.items d).self ≢ at i) where
  abbrev placed : ℕ → Item
  placed i = record (s.items d) { self = at i; worker = some victim }

  abbrev added : Pool → State
  added q = record {
    pool = record q { array = update q.array q.size (some d); size = q.size + 1 };
    items = update s.items d (placed q.size);
  }

  module _ (q : Pool) (same_size : q.size ≡ s.pool.size) (room : q.size < q.capacity)
      (kept : (i : ℕ) → i < s.pool.size → q.array i ≡ s.pool.array i) where
    added-entry : (i : ℕ) → i < q.size + 1 → (e : ℕ) × Entry victim (added q) i e
    added-entry i lt = elim (dec_lt i s.pool.size) [
      | yes old ↦
          let (e, known) = valid.entry i old in
          (
            e,
            record {
              cell = ground (arith, known.cell, kept i old);
              self = ground (arith, known.self, apart i);
              worker = ground (arith, known.worker, known.self, apart i);
            },
          )
      | no new ↦ (d, record { cell = ground arith; self = ground arith; worker = ground arith })
    ]

    added-IsValid : IsValid victim (added q)
    added-IsValid = record { room = omega arith; fits = omega arith; entry = added-entry }

    added-all_set : all_set (added q).pool.array (added q).pool.size ≡ true
    added-all_set = all_set_of _ _ (λ i lt. let (e, known) = added-entry i lt in (e, known.cell))

    contents-added : contents (added q).pool ≡ contents s.pool ++ (some d ∷ [])
    contents-added =
        rw (added_size, window-snoc, add.zero)
          (ap₂ (λ l x. l ++ (x ∷ []))
            (window-eq _ s.pool.array 0 s.pool.size (λ i a b. ground (arith, kept i)))
            (ground arith))
      where
        added_size : (added q).pool.size ≡ suc s.pool.size
        added_size = omega arith

  -- Adding a deque to a sound pool succeeds, if the caller holds the victim's lock, the pool is the
  -- one for the deque's flag, the deque is in no pool and there is memory for an array of twice the
  -- capacity. The pool stays sound and holds the deque behind those it held; the deque knows its
  -- position and its worker, keeps its flag, and no other deque changes.
  pub deque_pool_add_lem :
      (cells : ℕ → Option ℕ)
      → env.malloc (2 * s.pool.capacity) ≡ some cells
      → (t : State) × (deque_pool_add env victim (s.items d).resumable d s ≡ ok t)
        × IsValid victim t
        × (contents t.pool ≡ contents s.pool ++ (some d ∷ []))
        × (t.items d ≡ placed s.pool.size)
        × ((e : ℕ) → e ≢ d → t.items e ≡ s.items e)
  unfolding deque_pool_add
  deque_pool_add_lem cells m =
      let (q, made, same_size, room, kept) =
        make_room-ok env s.pool valid.room valid.fits cells m in
      (
        added q,
        ground (
          arith,
          locked,
          made,
          validate-ok env (added q).pool victim env.tls_worker,
          added-all_set q same_size room kept,
        ),
        added-IsValid q same_size room kept,
        contents-added q same_size room kept,
        ground arith,
        λ e ne. ground arith,
      )
