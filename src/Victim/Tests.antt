-- ===== src/Victim/Tests.antt =====
-- Random choices on small inputs.
use cilk_l.Prelude.{
  ℕ, zero, suc, ◌<◌, ◌≡◌, refl, ◌≢◌, ◌⊎◌, true, Option, none, some, arith, ok, abort,
}
use cilk_l.DequePool.{Pool}
use cilk_l.Victim.{rngmod, myrand, mysrand, Team, pick_victim, Victim, choose_index, choose_deque}
use cilk_l.Victim.Choice.{pick_victim_lem, IsKept, is_mugged, IsExplained, choose_deque_lem}

abbrev team : Team
team = record { p = 4; total_workers = 4; io_normal = true }

seeded : mysrand 0 ≡ 1
unfolding mysrand
seeded = refl

drawn : myrand 1 ≡ 69070
unfolding myrand
drawn = refl

pick_victim_lem_example :
    ((seed : ℕ)
      → (v : ℕ) × (s : ℕ) × (pick_victim team 2 0 seed ≡ some (v, s))
        × (v < 4)
        × (◌≡◌ {A = ℕ} 0 0 → v ≢ 2))
    × ((v : ℕ)
        → v < 4
        → (v ≢ 2) ⊎ (0 < 0)
        → (seed : ℕ) × (s : ℕ) × (0 < seed)
          × (seed < rngmod)
          × (pick_victim team 2 0 seed ≡ some (v, s)))
pick_victim_lem_example =
    pick_victim_lem team 2 0 (omega arith) (omega arith) (omega arith) (omega arith)

abbrev no_deques : Pool
no_deques = record { array = λ i. none; size = 0; capacity = 8 }

abbrev one_deque : Pool
one_deque = record { array = λ i. elim i [ zero ↦ some 5 | suc j ↦ none ]; size = 1; capacity = 8 }

abbrev suspended_one : Victim
suspended_one = record {
  self = 2;
  active_deque = some 3;
  suspended_deques = one_deque;
  resumable_deques = no_deques;
}

one_deque-IsKept : IsKept one_deque
one_deque-IsKept = record { room = omega arith; fits = omega arith }

no_deques-IsKept : IsKept no_deques
no_deques-IsKept = record { room = omega arith; fits = omega arith }

-- Alone, with its deques gone.
test_unexplained :
    choose_deque
      (record { p = 1; total_workers = 1; io_normal = true })
      (λ i. some 2)
      2
      (record suspended_one { suspended_deques = no_deques })
      1
    ≡ abort
unfolding choose_deque choose_index myrand
test_unexplained = refl

choose_deque_lem_example :
    (◌≢◌ {A = Option ℕ} (some 2) (some 2)
      → choose_deque team (λ i. some 2) 2 suspended_one 1 ≡ abort)
    × (◌≡◌ {A = Option ℕ} (some 2) (some 2)
        → is_mugged 2 suspended_one ≡ true
        → ¬ IsExplained team suspended_one
        → choose_deque team (λ i. some 2) 2 suspended_one 1 ≡ abort)
    × (◌≡◌ {A = Option ℕ} (some 2) (some 2)
        → (is_mugged 2 suspended_one ≡ true → IsExplained team suspended_one)
        → (d : Option ℕ) × (seed' : ℕ) × (choose_deque team (λ i. some 2) 2 suspended_one 1
            ≡ ok (d, seed'))
          × (0 < 0 → d ≡ none)
          × (◌≡◌ {A = ℕ} 0 0
              → ((d ≡ some 3) × ((◌≢◌ {A = ℕ} 2 2) ⊎ (◌≡◌ {A = ℕ} 1 0)))
                ⊎ ((i : ℕ) × (i < 1) × (d ≡ one_deque.array i))))
choose_deque_lem_example =
    choose_deque_lem team (λ i. some 2) 2 suspended_one 1 one_deque-IsKept no_deques-IsKept
