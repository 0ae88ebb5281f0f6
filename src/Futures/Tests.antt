-- ===== src/Futures/Tests.antt =====
-- A future that four deques wait for, step by step.
use cilk_l.Prelude.{
  ℕ, ◌≤◌, ◌<◌, ◌≡◌, refl, ◌≢◌, inl, inr, Bool, true, ◌++◌, false, Option, none, some, List, [], ◌∷◌,
  arith, ltb, leb, ◌&&◌, if◌then◌else◌, Option-cases, ◌==◌,
}
use mathlib.Core.Path.{subst}
use cilk_l.Futures.{
  suspended, failed, walking, waking, Putter, finished, System, GetterAction, test, fetch, clear,
  swap, link, suspend, finish, getter_step, PutterAction, store, announce, read_next,
  make_resumable, leave, resume_returned, putter_step, new_future, Reach, start, by_getter,
  by_putter, by_reuse, reuse_link, link_behind, by_follower,
}
use cilk_l.Futures.Counts.{announced}
use cilk_l.Futures.Chain.{entered}
use cilk_l.Futures.Walk.{rest}
use cilk_l.Futures.Safety.{returned, waits, get_returns_result, put_wakes_all}
use cilk_l.Futures.Progress.{Step, steps_left}
use cilk_l.Futures.Termination.{Run, put_returns}
use cilk_l.Futures.Reuse.{Lost, reused_link_hangs}

data Move : Type 0 where
  get_by : GetterAction → ℕ → Move
  put_by : PutterAction → Move
  reuse_by : ℕ → Move
  follow_by : ℕ → ℕ → Move

abbrev move : Move → System → Option System
move (get_by a i) s = getter_step a i s
move (put_by a) s = putter_step 7 a s
move (reuse_by i) s = reuse_link i s
move (follow_by i k) s = link_behind i k s

unfoldable run : List Move → System → Option System
run [] s = some s
run (m ∷ moves) s = elim (move m s) [ none ↦ none | some t ↦ run moves t ]

abbrev allowed : Bool → List Move → Bool
allowed reuse [] = true
allowed reuse (get_by a i ∷ moves) = ltb 0 i && leb i 4 && allowed reuse moves
allowed reuse (put_by a ∷ moves) = allowed reuse moves
allowed reuse (reuse_by i ∷ moves) = reuse && allowed reuse moves
allowed reuse (follow_by i k ∷ moves) = reuse && allowed reuse moves

run-Reach :
    (reuse : Bool) (s t u : System) (moves : List Move)
    → allowed reuse moves ≡ true
    → Reach 4 7 reuse s t
    → run moves t ≡ some u
    → Reach 4 7 reuse s u
unfolding run
run-Reach reuse s t u [] ok r e = subst (Reach 4 7 reuse s) (ground (arith, e)) r
run-Reach reuse s t u (get_by a i ∷ moves) ok r e = elim (Option-cases (getter_step a i t)) [
  | inl stuck ↦ absurd (ground (arith, stuck, e))
  | inr (next, now) ↦
      run-Reach reuse s next u moves (ground (arith, ok))
        (by_getter a i r (ground (arith, ok)) (ground (arith, ok)) now) (ground (arith, now, e))
]
run-Reach reuse s t u (put_by a ∷ moves) ok r e = elim (Option-cases (putter_step 7 a t)) [
  | inl stuck ↦ absurd (ground (arith, stuck, e))
  | inr (next, now) ↦ run-Reach reuse s next u moves ok (by_putter a r now) (ground (arith, now, e))
]
run-Reach reuse s t u (reuse_by i ∷ moves) ok r e = elim (Option-cases (reuse_link i t)) [
  | inl stuck ↦ absurd (ground (arith, stuck, e))
  | inr (next, now) ↦
      run-Reach reuse s next u moves (ground (arith, ok)) (by_reuse i (ground (arith, ok)) r now)
        (ground (arith, now, e))
]
run-Reach reuse s t u (follow_by i k ∷ moves) ok r e = elim (Option-cases (link_behind i k t)) [
  | inl stuck ↦ absurd (ground (arith, stuck, e))
  | inr (next, now) ↦
      run-Reach reuse s next u moves (ground (arith, ok))
        (by_follower i k (ground (arith, ok)) r now) (ground (arith, now, e))
]

abbrev fresh : System
fresh = new_future 99 (λ i. some 5)

abbrev state_after : List Move → System
state_after moves = elim (run moves fresh) [ none ↦ fresh | some s ↦ s ]

abbrev get_and_wait : ℕ → List Move
get_and_wait i =
    get_by test i
    ∷ get_by fetch i
    ∷ get_by clear i
    ∷ get_by swap i
    ∷ get_by link i
    ∷ get_by suspend i
    ∷ []

-- The third deque has not linked itself when `put` looks for it, and a fourth comes late.
abbrev three_wait : List Move
three_wait =
    get_and_wait 3
    ++ get_and_wait 1
    ++ get_by test 2
      ∷ get_by fetch 2
      ∷ get_by clear 2
      ∷ get_by swap 2
      ∷ get_by test 4
      ∷ put_by store
      ∷ put_by announce
      ∷ put_by read_next
      ∷ put_by read_next
      ∷ []

abbrev all_woken : List Move
all_woken =
    three_wait
    ++ put_by make_resumable
      ∷ get_by finish 1
      ∷ get_by fetch 4
      ∷ get_by finish 4
      ∷ get_by link 2
      ∷ put_by read_next
      ∷ get_by suspend 2
      ∷ put_by make_resumable
      ∷ put_by leave
      ∷ put_by resume_returned
      ∷ get_by finish 3
      ∷ []

test_woken : (state_after all_woken).woken ≡ 1 ∷ 2 ∷ 3 ∷ []
unfolding run getter_step putter_step
test_woken = refl

reached_all : Reach 4 7 false fresh (state_after all_woken)
unfolding run getter_step putter_step
reached_all = run-Reach false fresh fresh (state_after all_woken) all_woken refl start refl

get_returns_result_example :
    ((state_after all_woken).getter 4 ≢ failed)
    × ((w : ℕ)
        → returned ((state_after all_woken).getter 4) ≡ some w
        → (w ≡ 7) × ((state_after all_woken).future.result ≡ 7))
get_returns_result_example =
    get_returns_result 4 7 99 (λ i. some 5) (state_after all_woken) (omega arith) reached_all 4

abbrev end : System
end = state_after all_woken

put_wakes_all_example :
    ((i : ℕ) → i ≤ 4 → waits (end.getter i) ≡ false)
    × (end.woken ≡ rest end.slot end.size ++ (if end.size == 0 then [] else end.slot 1 ∷ []))
    × ((i : ℕ)
        → entered (end.getter i) ≡ true
        → (end.slot (end.place i) ≡ i) × (0 < end.place i) × (end.place i ≤ end.size))
    × ((j k : ℕ) → j ≤ end.size → k ≤ end.size → end.slot j ≡ end.slot k → j ≡ k)
unfolding run getter_step putter_step
put_wakes_all_example = put_wakes_all 4 7 99 (λ i. some 5) end (omega arith) reached_all refl

reached_walk : Reach 4 7 false fresh (state_after three_wait)
unfolding run getter_step putter_step
reached_walk = run-Reach false fresh fresh (state_after three_wait) three_wait refl start refl

abbrev midway : System
midway = state_after three_wait

put_returns_example :
    ((k : ℕ) × (t : System) × Run 4 7 k midway t
      × (k ≤ steps_left 4 midway)
      × (t.putter ≡ finished))
    × ((t : System)
        → Step 4 7 midway t
        → (announced t.putter ≡ true) × (steps_left 4 t ≤ steps_left 4 midway))
    × ((a : PutterAction) (t : System)
        → putter_step 7 a midway ≡ some t
        → steps_left 4 t < steps_left 4 midway)
unfolding run getter_step putter_step
put_returns_example = put_returns 4 7 99 (λ i. some 5) midway (omega arith) reached_walk refl

-- The second deque is resumed, returns, and begins to wait for another future before `put` has read its
-- link.
abbrev hurried : List Move
hurried =
    get_and_wait 3
    ++ get_and_wait 1
    ++ get_and_wait 2
    ++ put_by store
      ∷ put_by announce
      ∷ put_by read_next
      ∷ put_by read_next
      ∷ put_by make_resumable
      ∷ get_by finish 1
      ∷ reuse_by 1
      ∷ []

abbrev lost : System
lost = state_after hurried

reached_lost : Reach 4 7 true fresh lost
unfolding run getter_step putter_step reuse_link
reached_lost = run-Reach true fresh fresh lost hurried refl start refl

lost-Lost : Lost 1 0 (some 3) lost
unfolding run getter_step putter_step reuse_link
lost-Lost = record {
  stands = refl;
  clear_link = refl;
  behind = refl;
  not_last = ground arith;
  not_old = λ i e. ground (arith, e);
}

abbrev later : System
later = state_after (hurried ++ get_by test 4 ∷ [])

reused_link_hangs_example :
    (later.putter ≡ walking 1 1 (some 3))
    × (later.future.next 1 ≡ none)
    × ((j : ℕ) → lost.getter j ≡ suspended → later.getter j ≡ suspended)
unfolding run getter_step putter_step reuse_link
reused_link_hangs_example =
    reused_link_hangs 4 7 1 0 (some 3) lost later lost-Lost
      (run-Reach true lost lost later (get_by test 4 ∷ []) refl start refl) refl

abbrev map_putter : Option System → Option Putter
map_putter none = none
map_putter (some s) = some s.putter

-- Once deque 4 waits for the other future, behind the second deque, `put` goes on to it.
test_astray :
    map_putter (run (follow_by 1 4 ∷ put_by read_next ∷ []) lost) ≡ some (waking 4 0 (some 3))
unfolding run getter_step putter_step reuse_link link_behind
test_astray = refl
