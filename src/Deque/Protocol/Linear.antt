-- ===== src/Deque/Protocol/Linear.antt =====
-- The history of the THE protocol is one of the queue of ready frames.
use cilk_l.Prelude.{
  ℕ, suc, ◌+◌, ◌-◌, ◌≤◌, ◌<◌, ◌≡◌, ap, ◌∙◌, Option, none, some, List, [], ◌∷◌, ◌++◌, arith, window,
  window-snoc, window-update, pop_last, pop_last-append, ◌==◌, if◌then◌else◌, inl, inr,
  Option-cases, count, count-append,
}
use cilk_l.Deque.{Deque, deque_init}
use cilk_l.Deque.Protocol.{
  Event, pushed, popped, orphaned, stolen, stored, System, Action, store, advance, undo,
  compare_exc, take_lock, reset_exc, decide, drop_lock, try_lock, announce, test, retreat, detach,
  leave, owner_step, thief_step, Reach, start, by_owner, by_thief,
}
use cilk_l.Deque.Protocol.Spec.{apply, replay}
use cilk_l.Deque.Protocol.Inv.{
  first, past, contents, Shape, IsFresh, owner_step-Shape, thief_step-Shape,
}

-- The frames from slot `h` up to slot `t`.
abbrev ready : (ℕ → ℕ) → ℕ → ℕ → List ℕ
ready f h t = window f h (t - h)

ready-snoc : (f : ℕ → ℕ) (h t : ℕ) → h ≤ t → ready f h (t + 1) ≡ ready f h t ++ (f t ∷ [])
ready-snoc f h t le =
    ap (window f h) {y = suc (t - h)} (omega arith)
    ∙ window-snoc f h (t - h)
    ∙ ap (λ k. ready f h t ++ (f k ∷ [])) (omega arith)

ready-cons : (f : ℕ → ℕ) (h t : ℕ) → h < t → ready f h t ≡ f h ∷ ready f (h + 1) t
ready-cons f h t lt = ap (window f h) e ∙ ap (λ k. f h ∷ window f k (t - (h + 1))) (omega arith)
  where
    e : t - h ≡ suc (t - (h + 1))
    e = omega arith

ready-none : (f : ℕ → ℕ) (h t : ℕ) → t ≤ h → ready f h t ≡ []
ready-none f h t le = ap (window f h) {y = 0} (omega arith)

apply-popped : (q : List ℕ) (x : ℕ) → apply (popped x) (q ++ (x ∷ [])) ≡ some q
apply-popped q x = ground (arith, pop_last-append q x)

abbrev Legal : System → Type 0
Legal s = replay s.log ≡ some (contents s)

owner_step-Legal :
    {s t : System} (a : Action) → owner_step a s ≡ some t → Shape s → Legal s → Legal t
unfolding owner_step
owner_step-Legal {s} (store x) e v h =
    ground (arith, window-update s.deque.slots (first s) (past s - first s) s.deque.tail x)
owner_step-Legal {s} advance e v h = ground (arith, ready-snoc s.deque.slots (first s) s.deque.tail)
owner_step-Legal undo e v h = ground arith
owner_step-Legal {s} compare_exc e v h = ground (
  arith,
  ready-snoc s.deque.slots (first s) s.deque.tail,
  apply-popped (ready s.deque.slots (first s) s.deque.tail) (s.deque.slots s.deque.tail),
)
owner_step-Legal take_lock e v h = ground arith
owner_step-Legal reset_exc e v h = ground arith
owner_step-Legal {s} decide e v h = ground (
  arith,
  ready-none s.deque.slots (first s) (past s),
  ready-snoc s.deque.slots (first s) s.deque.tail,
  apply-popped (ready s.deque.slots (first s) s.deque.tail) (s.deque.slots s.deque.tail),
)
owner_step-Legal drop_lock e v h = ground arith
owner_step-Legal _ e v h = ground arith

thief_step-Legal :
    {s t : System} (a : Action) → thief_step a s ≡ some t → Shape s → Legal s → Legal t
unfolding thief_step
thief_step-Legal (try_lock i) e v h = ground arith
thief_step-Legal announce e v h = ground arith
thief_step-Legal {s} test e v h = ground (arith, ready-cons s.deque.slots s.deque.head (past s))
thief_step-Legal retreat e v h = ground arith
thief_step-Legal detach e v h = ground arith
thief_step-Legal leave e v h = ground arith
thief_step-Legal _ e v h = ground arith

Reach-Shape : {d : Deque} {s : System} → IsFresh d → Reach d s → Shape s
Reach-Shape f start = ground arith
Reach-Shape f (by_owner a r e) = owner_step-Shape a e (Reach-Shape f r)
Reach-Shape f (by_thief a r e) = thief_step-Shape a e (Reach-Shape f r)

Reach-Legal : {d : Deque} {s : System} → IsFresh d → Reach d s → Legal s
Reach-Legal {d} f start = ground (arith, ready-none d.slots d.head d.tail)
Reach-Legal f (by_owner a r e) = owner_step-Legal a e (Reach-Shape f r) (Reach-Legal f r)
Reach-Legal f (by_thief a r e) = thief_step-Legal a e (Reach-Shape f r) (Reach-Legal f r)

deque_init-IsFresh :
    {d : Deque} (a b : Option ℕ) (m : ℕ → ℕ) (n : ℕ) → deque_init a b m n ≡ some d → IsFresh d
unfolding deque_init
deque_init-IsFresh (some a) (some b) m n e = ground arith
deque_init-IsFresh none _ m n e = ground arith
deque_init-IsFresh (some a) none m n e = ground arith

-- Take any interleaving of the owner's and the thieves' steps on a deque that `deque_init` made.
-- Its history of pushes, pops, lost pops and steals is one of a sequential queue (the owner pushes
-- and pops at the young end, a thief takes the oldest frame, and a pop is lost only when the queue
-- is empty), and the queue that it leaves is what the slots from `head` to `tail` hold, less the
-- frame that a thief has won and not yet detached, plus the one that the owner has taken back and
-- not yet won or lost.
pub replay-log :
    {d : Deque} {s : System} (a b : Option ℕ) (m : ℕ → ℕ) (n : ℕ)
    → deque_init a b m n ≡ some d
    → Reach d s
    → replay s.log ≡ some (contents s)
replay-log a b m n e r = Reach-Legal (deque_init-IsFresh a b m n e) r

-- In every reachable state the deque's pointers stay inside its storage: `ltq` is at most `head` and
-- at most `tail`, `tail` is at most `ltq_limit`, `head` is at most one above `tail`, and a store at
-- `tail` that is still to be published was made below `ltq_limit`.
pub Reach-bounds :
    {d : Deque} {s : System} (a b : Option ℕ) (m : ℕ → ℕ) (n : ℕ)
    → deque_init a b m n ≡ some d
    → Reach d s
    → (s.deque.ltq ≤ s.deque.head)
      × (s.deque.ltq ≤ s.deque.tail)
      × (s.deque.tail ≤ s.deque.ltq_limit)
      × (s.deque.head ≤ s.deque.tail + 1)
      × ((x : ℕ) → s.pc ≡ stored x → s.deque.tail < s.deque.ltq_limit)
Reach-bounds {s = s} a b m n e r =
    let v = Reach-Shape (deque_init-IsFresh a b m n e) r in
    (v.low, ground arith, ground arith, ground arith, λ x p. ground arith)

-- How often a frame was pushed, and how often it was taken, by the owner or by a thief.
abbrev pub pushes : ℕ → List Event → ℕ
pushes x [] = 0
pushes x (pushed y ∷ es) = (if x == y then 1 else 0) + pushes x es
pushes x (popped y ∷ es) = pushes x es
pushes x (orphaned ∷ es) = pushes x es
pushes x (stolen y ∷ es) = pushes x es

abbrev pub takes : ℕ → List Event → ℕ
takes x [] = 0
takes x (pushed y ∷ es) = takes x es
takes x (popped y ∷ es) = (if x == y then 1 else 0) + takes x es
takes x (orphaned ∷ es) = takes x es
takes x (stolen y ∷ es) = (if x == y then 1 else 0) + takes x es

pop_last-count :
    (x y : ℕ) (q r : List ℕ)
    → pop_last q ≡ some (r, y)
    → count x q ≡ count x r + (if x == y then 1 else 0)
pop_last-count x y [] r e = ground arith
pop_last-count x y (z ∷ []) r e = ground arith
pop_last-count x y (z ∷ w ∷ ws) r e = elim (Option-cases (pop_last (w ∷ ws))) [
  | inl h ↦ ground arith
  | inr (p, h) ↦ ground (arith, pop_last-count x p.1 (w ∷ ws) p.0)
]

apply-count :
    (x : ℕ) (ev : Event) (es : List Event) (q r : List ℕ)
    → apply ev q ≡ some r
    → pushes x es ≡ takes x es + count x q
    → pushes x (ev ∷ es) ≡ takes x (ev ∷ es) + count x r
apply-count x (pushed y) es q r e h = ground (arith, count-append x q (y ∷ []))
apply-count x (popped y) es q r e h = elim (Option-cases (pop_last q)) [
  | inl n ↦ ground arith
  | inr (p, n) ↦ ground (arith, pop_last-count x p.1 q p.0 n)
]
apply-count x orphaned es [] r e h = ground arith
apply-count x orphaned es (z ∷ q) r e h = ground arith
apply-count x (stolen y) es [] r e h = ground arith
apply-count x (stolen y) es (z ∷ q) r e h = ground arith

replay-count :
    (x : ℕ) (es : List Event) (q : List ℕ)
    → replay es ≡ some q
    → pushes x es ≡ takes x es + count x q
replay-count x [] q e = ground arith
replay-count x (ev ∷ es) q e = elim (Option-cases (replay es)) [
  | inl n ↦ ground arith
  | inr (p, n) ↦ apply-count x ev es p q (ground arith) (replay-count x es p n)
]

-- In every reachable state each frame has been pushed as often as it has been taken, by the owner's
-- pops and the thieves' steals together, plus the times it is still ready: no interleaving runs a
-- frame twice or loses one.
pub pushes-eq-takes :
    {d : Deque} {s : System} (a b : Option ℕ) (m : ℕ → ℕ) (n : ℕ)
    → deque_init a b m n ≡ some d
    → Reach d s
    → (x : ℕ) → pushes x s.log ≡ takes x s.log + count x (contents s)
pushes-eq-takes {s = s} a b m n e r x = replay-count x s.log (contents s) (replay-log a b m n e r)
