-- ===== src/Futures/Linking.antt =====
-- Every step of a future keeps the list of the deques that wait for it.
use cilk_l.Prelude.{
  ℕ, zero, suc, ◌<◌, ◌≡◌, refl, ap, ◌∙◌, update_self, Bool, true, false, none, some, List, arith,
  update, if◌then◌else◌, ◌≢◌, ℕ_discrete,
}
use cilk_l.Futures.{
  Future, ready, fetch_add, Getter, seen, ticketed, cleared, swapped, linked, suspended, late,
  failed, Putter, System, at,
}
use cilk_l.Futures.Moves.{
  Turn, looks, passes, suspends, returns, returns_late, returns_passing, fails, fails_late,
  fails_passing, Moved, turns, fetches, clears, swaps, links, Put, stores, announces, reads_first,
  reads_next, resumes, leaves, finishes, resumes_returned,
}
use cilk_l.Futures.Chain.{entered, Chain}

abbrev is_swapped : Getter → Bool
is_swapped (swapped old) = true
is_swapped _ = false

-- The list does not see a step from `p` to `q`.
record Still (p q : Getter) : Type 0 where
  same : entered q ≡ entered p
  linked_before : is_swapped p ≡ false
  linked_after : is_swapped q ≡ false
  fresh : q ≢ cleared

Turn-Still : {f : Future} {p q : Getter} → Turn f p q → q ≢ failed → Still p q
Turn-Still (looks _) ok = ground arith
Turn-Still (passes _) ok = ground arith
Turn-Still suspends ok = ground arith
Turn-Still (returns _) ok = ground arith
Turn-Still (returns_passing _) ok = ground arith
Turn-Still (returns_late _) ok = ground arith
Turn-Still (fails _) ok = absurd (ok refl)
Turn-Still (fails_late _) ok = absurd (ok refl)
Turn-Still (fails_passing _) ok = absurd (ok refl)

if_Still : (b : Bool) → Still seen (if b then late else ticketed)
if_Still true = ground arith
if_Still false = ground arith

not_head : {s : System} {i : ℕ} → Chain s → s.getter i ≡ suspended → i ≢ 0
not_head {s} c h e = ground (arith, c.head_idle, h, ap s.getter e)

module _ {s : System} (i : ℕ) (c : Chain s) where
  open c use {
    head_idle, slot_zero, place_zero, place_slot, slot_place, entered_slot, clear_link, last_link,
    tail_at, joined,
  }

  Chain-clear :
      0 < i
      → s.getter i ≡ ticketed
      → Chain (record s {
        future = record s.future { next = update s.future.next i none };
        getter = update s.getter i cleared;
      })
  Chain-clear real h = record {
    head_idle = ground arith;
    slot_zero = slot_zero;
    place_zero = place_zero;
    place_slot = place_slot;
    slot_place = λ j e. ground (arith, slot_place j);
    entered_slot = λ k pos le. ground (arith, entered_slot k pos le);
    clear_link = λ j e. ground (arith, clear_link j);
    last_link = ground (arith, last_link);
    tail_at = tail_at;
    joined = λ k lt. ground (arith, joined k lt, entered_slot k, entered_slot (suc k));
  }

  Chain-swap :
      0 < i
      → s.getter i ≡ cleared
      → Chain (record s {
        future = record s.future { tail = i };
        getter = update s.getter i (swapped s.future.tail);
        slot = update s.slot (suc s.size) i;
        size = suc s.size;
        place = update s.place i (suc s.size);
      })
  Chain-swap real h = record {
    head_idle = ground arith;
    slot_zero = ground arith;
    place_zero = ground arith;
    place_slot = λ k le. ground (arith, place_slot k, entered_slot k);
    slot_place = λ j e. ground (arith, slot_place j);
    entered_slot = λ k pos le. ground (arith, entered_slot k pos);
    clear_link = λ j e. ground (arith, clear_link j);
    last_link = ground (arith, clear_link i);
    tail_at = ground arith;
    joined = λ k lt. ground (arith, joined k, entered_slot k, entered_slot (suc k));
  }

  -- Where a deque that has swapped the tail stands in the list.
  pub before :
      {old : ℕ}
      → s.getter i ≡ swapped old
      → (p : ℕ) × (p < s.size)
        × (s.slot (suc p) ≡ i)
        × (s.slot p ≡ old)
        × (s.future.next old ≡ none)
  before {old} h = go (s.place i) refl
    where
      go :
          (k : ℕ)
          → s.place i ≡ k
          → (p : ℕ) × (p < s.size)
            × (s.slot (suc p) ≡ i)
            × (s.slot p ≡ old)
            × (s.future.next old ≡ none)
      go zero e = absurd (ground (arith, slot_place i))
      go (suc p) e = (
        p,
        ground (arith, slot_place i),
        ground (arith, slot_place i),
        ground (arith, slot_place i, joined p),
        ground (arith, slot_place i, joined p),
      )

  Chain-link :
      {old : ℕ}
      → s.getter i ≡ swapped old
      → Chain (record s {
        future = record s.future { next = update s.future.next old (some i) };
        getter = update s.getter i linked;
      })
  Chain-link {old} h =
      let (p, lt_p, here, at_old, empty) = before h in
      record {
        head_idle = ground arith;
        slot_zero = slot_zero;
        place_zero = place_zero;
        place_slot = place_slot;
        slot_place = λ j e. ground (arith, slot_place j);
        entered_slot = λ k pos le. ground (arith, entered_slot k pos le);
        clear_link = λ j e. ground (arith, clear_link j, entered_slot p);
        last_link = ground (arith, last_link, place_slot p, place_slot s.size);
        tail_at = tail_at;
        joined = λ k lt. elim (ℕ_discrete k p) [
          | yes same ↦ ground (arith, joined p, ap s.slot same, ap (λ x. s.slot (suc x)) same)
          | no other ↦
              ground (
                arith,
                joined k,
                place_slot k,
                place_slot p,
                place_slot (suc k),
                place_slot (suc p),
              )
        ];
      }

  -- A change of where deque `i` stands that the list does not see.
  Chain-Still : {p q : Getter} → i ≢ 0 → s.getter i ≡ p → Still p q → Chain (at s i q)
  Chain-Still {p} {q} real here still = record {
    head_idle = ground arith;
    slot_zero = slot_zero;
    place_zero = place_zero;
    place_slot = place_slot;
    slot_place = λ j e. ground (arith, slot_place j);
    entered_slot = λ k pos le. ground (arith, entered_slot k pos le);
    clear_link = λ j e. ground (arith, clear_link j);
    last_link = last_link;
    tail_at = tail_at;
    joined = λ k lt. elim (ℕ_discrete i (s.slot (suc k))) [
      | yes at_i ↦
          ground (arith, here, ap s.getter at_i, same, linked_before, linked_after, joined k lt)
      | no other ↦ ground (arith, joined k lt)
    ];
  }
    where
      open still use {same, linked_before, linked_after, fresh}

-- What the list does not depend on.
Chain-rest :
    {s : System} {n v : ℕ} {p : Putter} {woken : List ℕ}
    → Chain s
    → Chain
        (record s { future = record s.future { count = n; result = v }; putter = p; woken = woken })
Chain-rest c = record {
  head_idle = c.head_idle;
  slot_zero = c.slot_zero;
  place_zero = c.place_zero;
  place_slot = c.place_slot;
  slot_place = c.slot_place;
  entered_slot = c.entered_slot;
  clear_link = c.clear_link;
  last_link = c.last_link;
  tail_at = c.tail_at;
  joined = c.joined;
}

pub Chain-Moved :
    {i : ℕ} {s t : System} → 0 < i → Moved i s t → t.getter i ≢ failed → Chain s → Chain t
Chain-Moved {i} {s} real (turns move h) ok c =
    Chain-Still i c (omega arith) h (Turn-Still move (λ e. ok (update_self s.getter i _ ∙ e)))
Chain-Moved {i} {s} real (fetches h) ok c =
    Chain-rest {n = (fetch_add 1 s.future).count}
      (Chain-Still i c (omega arith) h (if_Still (ready s.future)))
Chain-Moved {i} real (clears h) ok c = Chain-clear i c real h
Chain-Moved {i} real (swaps h) ok c = Chain-swap i c real h
Chain-Moved {i} real (links h) ok c = Chain-link i c h

pub Chain-Put : {s t : System} {v : ℕ} → Put v s t → Chain s → Chain t
Chain-Put (stores _) c = Chain-rest c
Chain-Put (announces _) c = Chain-rest c
Chain-Put (reads_first _ _) c = Chain-rest c
Chain-Put (reads_next _ _) c = Chain-rest c
Chain-Put (resumes {node} _ h) c = Chain-rest (Chain-Still node c (not_head c h) h (ground arith))
Chain-Put (leaves _) c = Chain-rest c
Chain-Put (finishes _) c = Chain-rest c
Chain-Put (resumes_returned {r} _ h) c =
    Chain-rest (Chain-Still r c (not_head c h) h (ground arith))
