-- ===== src/Futures/Moves.antt =====
-- The steps of a future's deques and of its worker, as relations between states.
use cilk_l.Prelude.{
  ℕ, zero, suc, ◌^◌, ◌≡◌, refl, sym, true, false, not, ◌&&◌, Option, none, some, [], ◌∷◌, ◌++◌, ltb,
  ◌∙◌, inl, inr, Bool-cases, if◌then◌else◌, arith, update,
}
use mathlib.Core.Path.{subst}
use cilk_l.Futures.{
  Future, ready, fetch_add, Getter, idle, seen, ticketed, cleared, swapped, linked, suspended,
  resumed, late, passing, passed, late_done, waited, failed, Putter, computing, stored, walking,
  waking, returning, finished, System, at, wake, GetterAction, test, fetch, clear, swap, link,
  suspend, finish, getter_step, PutterAction, store, announce, read_next, make_resumable, leave,
  resume_returned, putter_step,
}

-- The steps of a deque that change no more than where it stands.
pub data Turn (f : Future) : Getter → Getter → Type 0 where
  looks : ready f ≡ false → Turn f idle seen
  passes : ready f ≡ true → Turn f idle passing
  suspends : Turn f linked suspended
  returns : ready f ≡ true → Turn f resumed (waited f.result)
  returns_late : ready f ≡ true → Turn f late (late_done f.result)
  returns_passing : ready f ≡ true → Turn f passing (passed f.result)
  fails : ready f ≡ false → Turn f resumed failed
  fails_late : ready f ≡ false → Turn f late failed
  fails_passing : ready f ≡ false → Turn f passing failed

pub data Moved (i : ℕ) (s : System) : System → Type 0 where
  turns : {p q : Getter} → Turn s.future p q → s.getter i ≡ p → Moved i s (at s i q)
  fetches :
      s.getter i ≡ seen
      → Moved i s (record s {
        future = fetch_add 1 s.future;
        getter = update s.getter i (if ready s.future then late else ticketed);
      })
  clears :
      s.getter i ≡ ticketed
      → Moved i s (record s {
        future = record s.future { next = update s.future.next i none };
        getter = update s.getter i cleared;
      })
  swaps :
      s.getter i ≡ cleared
      → Moved i s (record s {
        future = record s.future { tail = i };
        getter = update s.getter i (swapped s.future.tail);
        slot = update s.slot (suc s.size) i;
        size = suc s.size;
        place = update s.place i (suc s.size);
      })
  links :
      {old : ℕ}
      → s.getter i ≡ swapped old
      → Moved i s (record s {
        future = record s.future { next = update s.future.next old (some i) };
        getter = update s.getter i linked;
      })

pub data Put (v : ℕ) (s : System) : System → Type 0 where
  stores :
      s.putter ≡ computing
      → Put v s (record s { future = record s.future { result = v }; putter = stored })
  announces :
      s.putter ≡ stored
      → Put v s (record s {
        future = fetch_add (2 ^ 31) s.future;
        putter =
            if ltb 0 s.future.count && not (ready s.future)
            then walking 0 s.future.count none
            else returning none;
      })
  reads_first :
      {node left k : ℕ}
      → s.putter ≡ walking node (suc left) none
      → s.future.next node ≡ some k
      → Put v s (record s { putter = walking k left (some k) })
  reads_next :
      {node left r k : ℕ}
      → s.putter ≡ walking node (suc left) (some r)
      → s.future.next node ≡ some k
      → Put v s (record s { putter = waking k left (some r) })
  resumes :
      {node left : ℕ} {ret : Option ℕ}
      → s.putter ≡ waking node left ret
      → s.getter node ≡ suspended
      → Put v s (record s {
        getter = update s.getter node resumed;
        putter = walking node left ret;
        woken = s.woken ++ node ∷ [];
      })
  leaves :
      {node : ℕ} {ret : Option ℕ}
      → s.putter ≡ walking node 0 ret
      → Put v s (record s { putter = returning ret })
  finishes : s.putter ≡ returning none → Put v s (record s { putter = finished })
  resumes_returned :
      {r : ℕ}
      → s.putter ≡ returning (some r)
      → s.getter r ≡ suspended
      → Put v s (record s {
        getter = update s.getter r resumed;
        putter = finished;
        woken = s.woken ++ r ∷ [];
      })

module _ {s t : System} (i : ℕ) where
  tested :
      {p q r : Getter}
      → s.getter i ≡ p
      → (ready s.future ≡ true → Turn s.future p q)
      → (ready s.future ≡ false → Turn s.future p r)
      → t ≡ at s i (if ready s.future then q else r)
      → Moved i s t
  tested {p} {q} {r} h yes_turn no_turn same = elim (Bool-cases (ready s.future)) [
    | inl now ↦ subst (Moved i s) (sym (same ∙ ground (arith, now))) (turns (yes_turn now) h)
    | inr now ↦ subst (Moved i s) (sym (same ∙ ground (arith, now))) (turns (no_turn now) h)
  ]

  pub getter_step-Moved : (a : GetterAction) → getter_step a i s ≡ some t → Moved i s t
  unfolding getter_step
  getter_step-Moved a e = go a (s.getter i) refl e
    where
      go :
          (a : GetterAction) (g : Getter)
          → s.getter i ≡ g
          → getter_step a i s ≡ some t
          → Moved i s t
      go test idle h e = tested h passes looks (ground (arith, h, e))
      go fetch seen h e = subst (Moved i s) (ground (arith, h, e)) (fetches h)
      go clear ticketed h e = subst (Moved i s) (ground (arith, h, e)) (clears h)
      go swap cleared h e = subst (Moved i s) (ground (arith, h, e)) (swaps h)
      go link (swapped old) h e = subst (Moved i s) (ground (arith, h, e)) (links h)
      go suspend linked h e = subst (Moved i s) (ground (arith, h, e)) (turns suspends h)
      go finish resumed h e = tested h returns fails (ground (arith, h, e))
      go finish passing h e = tested h returns_passing fails_passing (ground (arith, h, e))
      go finish late h e = tested h returns_late fails_late (ground (arith, h, e))
      go _ _ h e = absurd (ground (arith, h, e))

module _ (v : ℕ) {s t : System} where
  pub wake-Put :
      (k : ℕ) (after : Putter)
      → (s.getter k ≡ suspended
          → Put v s (record s {
            getter = update s.getter k resumed;
            putter = after;
            woken = s.woken ++ k ∷ [];
          }))
      → wake k after s ≡ some t
      → Put v s t
  wake-Put k after move e = go (s.getter k) refl e
    where
      go : (g : Getter) → s.getter k ≡ g → wake k after s ≡ some t → Put v s t
      go suspended h e = subst (Put v s) (ground (arith, h, e)) (move h)
      go _ h e = absurd (ground (arith, h, e))

  pub putter_step-Put : (a : PutterAction) → putter_step v a s ≡ some t → Put v s t
  unfolding putter_step
  putter_step-Put a e = go a s.putter refl e
    where
      step :
          (node left : ℕ) (ret : Option ℕ) (k : Option ℕ)
          → s.putter ≡ walking node (suc left) ret
          → s.future.next node ≡ k
          → putter_step v read_next s ≡ some t
          → Put v s t
      step node left none (some k) h n e =
          subst (Put v s) (ground (arith, h, n, e)) (reads_first h n)
      step node left (some r) (some k) h n e =
          subst (Put v s) (ground (arith, h, n, e)) (reads_next h n)
      step node left ret none h n e = absurd (ground (arith, h, n, e))

      go : (a : PutterAction) (p : Putter) → s.putter ≡ p → putter_step v a s ≡ some t → Put v s t
      go store computing h e = subst (Put v s) (ground (arith, h, e)) (stores h)
      go announce stored h e = subst (Put v s) (ground (arith, h, e)) (announces h)
      go read_next (walking node (suc left) ret) h e =
          step node left ret (s.future.next node) h refl e
      go make_resumable (waking node left ret) h e =
          wake-Put node (walking node left ret) (resumes h) (ground (arith, h, e))
      go leave (walking node zero ret) h e = subst (Put v s) (ground (arith, h, e)) (leaves h)
      go resume_returned (returning none) h e = subst (Put v s) (ground (arith, h, e)) (finishes h)
      go resume_returned (returning (some r)) h e =
          wake-Put r finished (resumes_returned h) (ground (arith, h, e))
      go _ _ h e = absurd (ground (arith, h, e))
