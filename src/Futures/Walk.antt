-- ===== src/Futures/Walk.antt =====
-- How far `put` has come in the list of the deques that wait, and which of them it has woken.
use cilk_l.Prelude.{
  ℕ, zero, suc, ◌+◌, ◌-◌, ◌≤◌, ◌<◌, ◌≡◌, Bool, true, false, Option, none, some, List, [], ◌∷◌, ◌++◌,
  total, window, if◌then◌else◌, ltb, leb, ◌&&◌, ◌==◌,
}
use cilk_l.Futures.{
  Getter, resumed, waited, Putter, computing, stored, walking, waking, returning, finished, System,
}
use cilk_l.Futures.Counts.{taken, entering}

-- The deque has been made resumable or resumed.
abbrev pub awake : Getter → Bool
awake resumed = true
awake (waited v) = true
awake _ = false

-- `put` has woken the `k`-th deque. The first one is the last.
abbrev pub reached : (ℕ → ℕ) → Putter → ℕ → Bool
reached place computing k = false
reached place stored k = false
reached place (walking node left ret) k = ltb 1 k && leb k (place node)
reached place (waking node left ret) k = ltb 1 k && ltb k (place node)
reached place (returning ret) k = ltb 1 k
reached place finished k = ltb 0 k

-- The deque that `put` returns, once it has come to the `g`-th.
abbrev pub first : (ℕ → ℕ) → ℕ → Option ℕ
first slot g = if g == 0 then none else some (slot 1)

-- The other ones up to the `g`-th.
abbrev pub rest : (ℕ → ℕ) → ℕ → List ℕ
rest slot zero = []
rest slot (suc g) = window slot 2 g

-- With `tickets` tickets taken, `ahead` deques that have one that is not negative and have not yet
-- swapped the tail, and `size` that have.
abbrev pub WalkAt : ℕ → ℕ → ℕ → (ℕ → ℕ) → (ℕ → ℕ) → List ℕ → Putter → Type 0
WalkAt tickets ahead size slot place woken (walking node left ret) =
    (slot (place node) ≡ node)
    × (place node ≤ size)
    × (left + place node ≡ size + ahead)
    × (ret ≡ first slot (place node))
    × (woken ≡ rest slot (place node))
WalkAt tickets ahead size slot place woken (waking node left ret) =
    (slot (place node) ≡ node)
    × (1 < place node)
    × (place node ≤ size)
    × (left + place node ≡ size + ahead)
    × (ret ≡ first slot (place node))
    × (woken ≡ rest slot (place node - 1))
WalkAt tickets ahead size slot place woken (returning ret) =
    (ahead ≡ 0) × (ret ≡ first slot size) × (woken ≡ rest slot size)
WalkAt tickets ahead size slot place woken finished =
    (ahead ≡ 0) × (woken ≡ rest slot size ++ (if size == 0 then [] else slot 1 ∷ []))
WalkAt tickets ahead size slot place woken _ = (tickets ≡ size + ahead) × (woken ≡ [])

abbrev pub tickets : ℕ → System → ℕ
tickets n s = total (suc n) (λ i. taken (s.getter i))

abbrev pub ahead : ℕ → System → ℕ
ahead n s = total (suc n) (λ i. entering (s.getter i))

pub record Walk (n : ℕ) (s : System) : Type 0 where
  pub walked : WalkAt (tickets n s) (ahead n s) s.size s.slot s.place s.woken s.putter
  pub woke : (k : ℕ) → 0 < k → k ≤ s.size → awake (s.getter (s.slot k)) ≡ reached s.place s.putter k
