-- ===== src/Victim/Choice.antt =====
-- Whom the scheduler steals from, which deque it takes, and to whom a suspended deque goes.
use cilk_l.Prelude.{
  leb, ℕ, zero, suc, ◌+◌, ◌-◌, ◌%◌, ◌≤◌, ◌<◌, ◌≡◌, refl, ◌≢◌, ◌⊎◌, inl, inr, Bool, true, false,
  ◌&&◌, Option, none, some, ltb, ◌==◌, if◌then◌else◌, arith, ap, ◌∙◌, ℕ_discrete, dec_lt, ok, abort,
  ◌||◌, not, Bool-cases, Option-cases,
}
use native.Mathlib.Nat.{mod_self, mod-eq_of_lt}
use cilk_l.DequePool.{Pool, holds}
use cilk_l.Victim.{
  rngmod, myrand, Team, pick_victim, Victim, choose_index, check_mugged, entry, choose_deque,
  two_choices, suspend_target, resumable_target,
}
use cilk_l.Victim.Generator.{unrand, myrand-unrand, state-drawn}

-- A number that is `t` modulo `n`, but not 0.
shifted : ℕ → ℕ → ℕ
shifted n zero = n
shifted n (suc t) = suc t

shifted-mod : (n t : ℕ) → t < n → (0 < shifted n t) × (shifted n t ≤ n) × (shifted n t % n ≡ t)
unfolding shifted
shifted-mod n zero lt = (omega arith, omega arith, mod_self n)
shifted-mod n (suc t) lt = (omega arith, omega arith, mod-eq_of_lt lt)

-- Some state not 0 draws any given remainder.
draw :
    (n t : ℕ)
    → n < rngmod
    → t < n
    → (seed : ℕ) × (0 < seed) × (seed < rngmod) × (myrand seed % n ≡ t)
draw n t few lt =
    let (pos, le, e) = shifted-mod n t lt in
    let (pos', lt') = state-drawn (shifted n t) pos (omega arith) in
    (
      unrand (shifted n t),
      pos',
      lt',
      ap (λ r. r % n) (myrand-unrand (shifted n t) (omega arith)) ∙ e,
    )

-- With at least two workers, `random_steal` picks a worker that there is, and another than itself if
-- it has no deque in its pools. It may pick any of these: for each there is a state of the generator,
-- from 1 to `rngmod - 1`, that makes it the victim.
pub pick_victim_lem :
    (g : Team) (self pooled : ℕ)
    → g.p ≢ 1
    → 1 < g.total_workers
    → g.total_workers < rngmod
    → self < g.total_workers
    → ((seed : ℕ)
        → (v : ℕ) × (s : ℕ) × (pick_victim g self pooled seed ≡ some (v, s))
          × (v < g.total_workers)
          × (pooled ≡ 0 → v ≢ self))
      × ((v : ℕ)
          → v < g.total_workers
          → (v ≢ self) ⊎ (0 < pooled)
          → (seed : ℕ) × (s : ℕ) × (0 < seed)
            × (seed < rngmod)
            × (pick_victim g self pooled seed ≡ some (v, s)))
unfolding pick_victim
pick_victim_lem g self pooled many two few lt = (
  λ seed.
      let s = myrand seed in
      let other = s % (g.total_workers - 1) in
      (
        (if pooled == 0
            then (if leb self other then other + 1 else other)
            else s % g.total_workers),
        s,
        ground arith,
        ground arith,
        λ e. ground (arith, e),
      ),
  λ v lt-v other. elim (ℕ_discrete pooled 0) [
    | yes e ↦
        let t = (if ltb self v then v - 1 else v) in
        let (seed, pos, lt', drawn) = draw (g.total_workers - 1) t (omega arith) (ground arith) in
        (seed, myrand seed, pos, lt', ground (arith, drawn))
    | no e ↦
        let (seed, pos, lt', drawn) = draw g.total_workers v (omega arith) lt-v in
        (seed, myrand seed, pos, lt', ground (arith, drawn))
  ],
)

-- With two workers or more, the two that `deque_suspend` and `__cilkrts_make_resumable` choose between
-- are different workers that there are.
pub two_choices_lem :
    (total seed : ℕ)
    → 1 < total
    → ((two_choices total seed).0 < total)
      × ((two_choices total seed).1 < total)
      × ((two_choices total seed).0 ≢ (two_choices total seed).1)
unfolding two_choices
two_choices_lem total seed two = ground arith

-- `t` is one of the two workers chosen from `total`, and its load is no greater than that of
-- either; if there is only worker 0 then it is that.
abbrev pub IsLighter : ℕ → ℕ → (ℕ → ℕ) → ℕ → Type 0
IsLighter total seed load t =
    (1 < total
      → ((t ≡ (two_choices total seed).0) ⊎ (t ≡ (two_choices total seed).1))
        × (load t ≤ load (two_choices total seed).0)
        × (load t ≤ load (two_choices total seed).1))
    × (total ≡ 1 → t ≡ 0)

-- If there is a worker at all, a deque that was suspended goes to one that there is. From
-- `__cilkrts_make_resumable` it goes to the one of the two chosen that has fewer resumable deques (or
-- as many), and from `deque_suspend`, if it is not resumable itself, to the one that has fewer
-- suspended deques (or as many).
pub target_lem :
    (total seed : ℕ) (suspended resumable : ℕ → ℕ)
    → 0 < total
    → ((resumable_target total resumable seed).0 < total)
      × IsLighter total seed resumable (resumable_target total resumable seed).0
      × ((b : Bool) → (suspend_target total b suspended resumable seed).0 < total)
      × IsLighter total seed suspended (suspend_target total false suspended resumable seed).0
unfolding resumable_target suspend_target
target_lem total seed suspended resumable pos = elim (dec_lt 1 total) [
  | yes two ↦
      let (a, b, c) = two_choices_lem total seed two in
      (ground (arith, a, b), ground (arith, a, b), λ r. ground (arith, a, b), ground (arith, a, b))
  | no one ↦ (ground arith, ground arith, λ r. ground arith, ground arith)
]

-- The deques of a pool fill its first cells, of which there is at least one.
pub record IsKept (pool : Pool) : Type 0 where
  pub room : 0 < pool.capacity
  pub fits : pool.size ≤ pool.capacity

-- The deque at an index that `choose_index` gives.
chosen : Option ℕ → Pool → ℕ → Option ℕ
chosen active pool index = if index == 0 then active else pool.array (index - 1)

entry-ok :
    (active : Option ℕ) (pool : Pool) (index : ℕ)
    → index ≤ pool.capacity
    → entry active pool index ≡ ok (chosen active pool index)
unfolding chosen
entry-ok active pool index le = ground arith

-- The worker chose itself and has no deque in its pools.
abbrev pub is_mugged : ℕ → Victim → Bool
is_mugged w victim =
    (w == victim.self) && (victim.resumable_deques.size == 0) && (victim.suspended_deques.size == 0)

-- Another worker can have taken its deques, and none is left in the cell for the first.
abbrev pub IsExplained : Team → Victim → Type 0
IsExplained g victim =
    ((g.io_normal ≡ false) ⊎ (1 < g.p)) × (victim.suspended_deques.array 0 ≡ none)

-- `choose_deque` by what `choose_index` gives.
choose_deque-ok :
    (g : Team) (lock_owner : ℕ → Option ℕ) (w : ℕ) (victim : Victim) (seed index s : ℕ)
    (pool : Pool)
    → lock_owner victim.self ≡ some w
    → choose_index w victim seed ≡ (index, pool, s)
    → IsKept pool
    → index ≤ pool.capacity
    → (w ≡ victim.self
        → pool.size ≡ 0
        → ((g.io_normal ≡ false) ⊎ (1 < g.p)) × (pool.array 0 ≡ none))
    → choose_deque g lock_owner w victim seed ≡ ok (chosen victim.active_deque pool index, s)
unfolding choose_deque
choose_deque-ok g lock_owner w victim seed index s pool locked e kept le explained =
    let held : holds (lock_owner victim.self) w ≡ true = ground (arith, locked) in
    let mugged : check_mugged g (w == victim.self) pool ≡ ok tt = ground (arith, kept, explained) in
    rw (held, e, mugged, entry-ok victim.active_deque pool index le) refl

-- The two pools that an index can be for.
choose_index-cases :
    (w : ℕ) (victim : Victim) (seed : ℕ)
    → ((0 < victim.resumable_deques.size)
        × (choose_index w victim seed
            ≡ (victim.resumable_deques.size, victim.resumable_deques, seed)))
      ⊎ ((victim.resumable_deques.size ≡ 0)
          × (index : ℕ) × (s : ℕ) × (choose_index w victim seed
              ≡ (index, victim.suspended_deques, s))
          × (index ≤ victim.suspended_deques.size)
          × (index ≡ 0 → (w ≢ victim.self) ⊎ (victim.suspended_deques.size ≡ 0)))
unfolding choose_index
choose_index-cases w victim seed =
    let n = victim.suspended_deques.size in
    let t = myrand seed in
    elim (dec_lt 0 victim.resumable_deques.size) [
      | yes some_one ↦ inl (some_one, ground (arith, some_one))
      | no empty ↦
          let own = (w == victim.self) && ltb 0 n in
          inr (
            omega arith,
            (if own then t % n + 1 else t % (n + 1)),
            t,
            ground arith,
            ground arith,
            ground arith,
          )
    ]

-- `choose_deque` aborts if the worker does not hold the victim's lock.
choose_deque-unlocked :
    (g : Team) (lock_owner : ℕ → Option ℕ) (w : ℕ) (victim : Victim) (seed : ℕ)
    → lock_owner victim.self ≢ some w
    → choose_deque g lock_owner w victim seed ≡ abort
unfolding choose_deque
choose_deque-unlocked g lock_owner w victim seed unlocked =
    let not_held : holds (lock_owner victim.self) w ≡ false = ground (arith, unlocked) in
    rw not_held refl

check_mugged-abort :
    (g : Team) (w : ℕ) (victim : Victim)
    → IsKept victim.suspended_deques
    → is_mugged w victim ≡ true
    → ¬ IsExplained g victim
    → check_mugged g (w == victim.self) victim.suspended_deques ≡ abort
check_mugged-abort g w victim kept mugged strange =
    elim (Bool-cases (not g.io_normal || ltb 1 g.p)) [
      | inr no_others ↦ ground (arith, mugged, no_others)
      | inl others ↦ elim (Option-cases (victim.suspended_deques.array 0)) [
        | inl null ↦ absurd (strange (ground (arith, others), null))
        | inr (d, e) ↦ ground (arith, mugged, others, kept, e)
      ]
    ]

-- It also aborts if the worker has been robbed of its last deque and nobody can have done it.
choose_deque-unexplained :
    (g : Team) (lock_owner : ℕ → Option ℕ) (w : ℕ) (victim : Victim) (seed : ℕ)
    → IsKept victim.suspended_deques
    → lock_owner victim.self ≡ some w
    → is_mugged w victim ≡ true
    → ¬ IsExplained g victim
    → choose_deque g lock_owner w victim seed ≡ abort
unfolding choose_deque
choose_deque-unexplained g lock_owner w victim seed kept locked mugged strange =
    let held : holds (lock_owner victim.self) w ≡ true = ground (arith, locked) in
    let bad = check_mugged-abort g w victim kept mugged strange in
    elim (choose_index-cases w victim seed) [
      | inl (pos, e) ↦ absurd (ground (arith, mugged, pos))
      | inr (none_left, index, s, e, le, first) ↦ rw (held, e, bad) refl
    ]

-- Let the deques of both pools of the victim fill their first cells. If the worker does not hold
-- the victim's lock, `choose_deque` aborts. If it holds the lock, chose itself and has no deque in
-- its pools, then it aborts unless there are workers besides it or the mode for I/O allows it, and
-- cell 0 of the pool of suspended deques is null. In all other cases it stays inside the arrays: it
-- takes the last resumable deque if there is one. If not, it takes one of the suspended deques or
-- the active one, and not its own active one while it has suspended deques.
pub choose_deque_lem :
    (g : Team) (lock_owner : ℕ → Option ℕ) (w : ℕ) (victim : Victim) (seed : ℕ)
    → IsKept victim.suspended_deques
    → IsKept victim.resumable_deques
    → (lock_owner victim.self ≢ some w → choose_deque g lock_owner w victim seed ≡ abort)
      × (lock_owner victim.self ≡ some w
          → is_mugged w victim ≡ true
          → ¬ IsExplained g victim
          → choose_deque g lock_owner w victim seed ≡ abort)
      × (lock_owner victim.self ≡ some w
          → (is_mugged w victim ≡ true → IsExplained g victim)
          → (d : Option ℕ) × (seed' : ℕ) × (choose_deque g lock_owner w victim seed ≡ ok (d, seed'))
            × (0 < victim.resumable_deques.size
                → d ≡ victim.resumable_deques.array (victim.resumable_deques.size - 1))
            × (victim.resumable_deques.size ≡ 0
                → ((d ≡ victim.active_deque)
                    × ((w ≢ victim.self) ⊎ (victim.suspended_deques.size ≡ 0)))
                  ⊎ ((i : ℕ) × (i < victim.suspended_deques.size)
                      × (d ≡ victim.suspended_deques.array i))))
unfolding chosen
choose_deque_lem g lock_owner w victim seed kept kept' = (
  choose_deque-unlocked g lock_owner w victim seed,
  choose_deque-unexplained g lock_owner w victim seed kept,
  λ locked explained.
      let run = choose_deque-ok g lock_owner w victim seed in
      elim (choose_index-cases w victim seed) [
        | inl (pos, e) ↦ (
          chosen victim.active_deque victim.resumable_deques victim.resumable_deques.size,
          seed,
          run _ _ _ locked e kept' kept'.fits (λ h none_there. absurd (omega arith)),
          λ h. ground arith,
          λ h. absurd (omega arith),
        )
        | inr (none_left, index, s, e, le, first) ↦ (
          chosen victim.active_deque victim.suspended_deques index,
          s,
          run _ _ _ locked e kept (omega arith)
              (λ h none_there. explained (ground (arith, h, none_there, none_left))),
          λ h. absurd (omega arith),
          λ h. elim (ℕ_discrete index 0) [
            | yes z ↦ inl (ground (arith, z), first z)
            | no nz ↦ inr (index - 1, omega arith, ground (arith, nz))
          ],
        )
      ],
)
