-- ===== src/Futures.antt =====
-- A future of cilk-l/include/cilk/future.h, one worker that computes it and any number of deques
-- that wait for it, step by step: `future<T>::put`, `get` and `suspend_deque`, with
-- `__cilkrts_insert_deque_into_list` of cilk-l/runtime/deque.c, and the end of
-- `__spawn_future_helper` of cilk-l/runtime/cilk-abi-future.cpp. A step makes at most one access to
-- memory that others write. A `__cilkrts_deque_link` is a number: 0 is the future's `head`, and `i`
-- the link of deque `i`.
mod Moves
mod Chain
mod Linking
mod Counts
mod Walk
mod Entering
mod Waking
mod Inv
mod Safety
mod Progress
mod Termination
mod Reuse
mod Tests
use cilk_l.Prelude.{
  ℕ, zero, suc, ◌+◌, ◌-◌, ◌%◌, ◌^◌, ◌≤◌, ◌<◌, ◌≡◌, Bool, true, false, not, Option, none, some, List,
  [], ◌∷◌, ◌++◌, ltb, leb, ◌&&◌, if◌then◌else◌, update,
}

-- `count` is the bit pattern of `m_num_suspended_deques`, an `int` of 32 bits.
pub record Future : Type 0 where
  pub result : ℕ
  pub count : ℕ
  pub tail : ℕ
  pub next : ℕ → Option ℕ

-- `m_num_suspended_deques < 0`
abbrev pub ready : Future → Bool
ready f = leb (2 ^ 31) f.count

-- `__atomic_fetch_add`
abbrev pub fetch_add : ℕ → Future → Future
fetch_add n f = record f { count = (f.count + n) % 2 ^ 32 }

-- Where a deque that calls `get` stands: it has seen that the future is not ready; it has a ticket
-- that is not negative; it has cleared its link; it has swapped it with the tail, which was the
-- link given; it has linked that one to its own; it is suspended; it has been made resumable. Or
-- its ticket was negative (`late`), or it has seen that the future is ready and takes no ticket
-- (`passing`). `passed`, `late_done` and `waited` have returned a value, the first without a
-- ticket, the last after it was suspended; `failed` is a failed assertion.
pub data Getter : Type 0 where
  idle : Getter
  seen : Getter
  ticketed : Getter
  cleared : Getter
  swapped : ℕ → Getter
  linked : Getter
  suspended : Getter
  resumed : Getter
  late : Getter
  passing : Getter
  passed : ℕ → Getter
  late_done : ℕ → Getter
  waited : ℕ → Getter
  failed : Getter

-- Where the worker that calls `put` stands: in front of it; it has stored the result; it stands at
-- a node with so many deques left, and with what it will return, if that is known; it is about to
-- make the node's deque resumable; it has returned; it has resumed the deque that `put` returned,
-- if any.
pub data Putter : Type 0 where
  computing : Putter
  stored : Putter
  walking : ℕ → ℕ → Option ℕ → Putter
  waking : ℕ → ℕ → Option ℕ → Putter
  returning : Option ℕ → Putter
  finished : Putter

-- A trace keeps the order in which the deques swapped the tail, in `slot` from 1 to `size`; `place`
-- says the place of a deque in it, and `woken` lists the deques that have been made resumable or
-- resumed. `followed` says of which links another deque has linked itself behind, in the list of
-- another future.
pub record System : Type 0 where
  pub future : Future
  pub getter : ℕ → Getter
  pub putter : Putter
  pub slot : ℕ → ℕ
  pub size : ℕ
  pub place : ℕ → ℕ
  pub woken : List ℕ
  pub followed : ℕ → Bool

abbrev pub at : System → ℕ → Getter → System
at s i p = record s { getter = update s.getter i p }

pub data GetterAction : Type 0 where
  test fetch clear swap link suspend finish : GetterAction

-- The steps of `__cilkrts_insert_deque_into_list`.
abbrev pub insert_deque_into_list : GetterAction → ℕ → System → Option System
insert_deque_into_list clear i s = elim (s.getter i) [
  | ticketed ↦ some (record s {
    future = record s.future { next = update s.future.next i none };
    getter = update s.getter i cleared;
  })
  | _ ↦ none
]
insert_deque_into_list swap i s = elim (s.getter i) [
  | cleared ↦ some (record s {
    future = record s.future { tail = i };
    getter = update s.getter i (swapped s.future.tail);
    slot = update s.slot (suc s.size) i;
    size = suc s.size;
    place = update s.place i (suc s.size);
  })
  | _ ↦ none
]
insert_deque_into_list link i s = elim (s.getter i) [
  | swapped old ↦ some (record s {
    future = record s.future { next = update s.future.next old (some i) };
    getter = update s.getter i linked;
  })
  | _ ↦ none
]
insert_deque_into_list _ i s = none

-- A step of deque `i`; `none` if it is not possible.
unfoldable pub getter_step : GetterAction → ℕ → System → Option System
getter_step test i s = elim (s.getter i) [
  | idle ↦ some (at s i (if ready s.future then passing else seen))
  | _ ↦ none
]
getter_step fetch i s = elim (s.getter i) [
  | seen ↦ some (record s {
    future = fetch_add 1 s.future;
    getter = update s.getter i (if ready s.future then late else ticketed);
  })
  | _ ↦ none
]
getter_step suspend i s = elim (s.getter i) [ linked ↦ some (at s i suspended) | _ ↦ none ]
getter_step finish i s = elim (s.getter i) [
  | resumed ↦ some (at s i (if ready s.future then waited s.future.result else failed))
  | passing ↦ some (at s i (if ready s.future then passed s.future.result else failed))
  | late ↦ some (at s i (if ready s.future then late_done s.future.result else failed))
  | _ ↦ none
]
getter_step a i s = insert_deque_into_list a i s

pub data PutterAction : Type 0 where
  store announce read_next make_resumable leave resume_returned : PutterAction

-- `__cilkrts_make_resumable` and `__cilkrts_resume_suspended` wait until the deque is suspended.
abbrev pub wake : ℕ → Putter → System → Option System
wake k after s = elim (s.getter k) [
  | suspended ↦
      some
        (record s { getter = update s.getter k resumed; putter = after; woken = s.woken ++ k ∷ [] })
  | _ ↦ none
]

-- A step of the worker that puts `v`.
unfoldable pub putter_step : ℕ → PutterAction → System → Option System
putter_step v store s = elim s.putter [
  | computing ↦ some (record s { future = record s.future { result = v }; putter = stored })
  | _ ↦ none
]
putter_step v announce s = elim s.putter [
  | stored ↦ some (record s {
    future = fetch_add (2 ^ 31) s.future;
    putter =
        if ltb 0 s.future.count && not (ready s.future)
        then walking 0 s.future.count none
        else returning none;
  })
  | _ ↦ none
]
putter_step v read_next s = elim s.putter [
  | walking node (suc left) ret ↦ elim (s.future.next node) [
    | none ↦ none
    | some k ↦ elim ret [
      | none ↦ some (record s { putter = walking k left (some k) })
      | some r ↦ some (record s { putter = waking k left (some r) })
    ]
  ]
  | _ ↦ none
]
putter_step v make_resumable s = elim s.putter [
  | waking node left ret ↦ wake node (walking node left ret) s
  | _ ↦ none
]
putter_step v leave s = elim s.putter [
  | walking node zero ret ↦ some (record s { putter = returning ret })
  | _ ↦ none
]
putter_step v resume_returned s = elim s.putter [
  | returning ret ↦ elim ret [
    | none ↦ some (record s { putter = finished })
    | some r ↦ wake r finished s
  ]
  | _ ↦ none
]

-- Deque `i` has returned from this `get` and begins to wait for another future: it clears its link.
unfoldable pub reuse_link : ℕ → System → Option System
reuse_link i s = elim (s.getter i) [
  | waited v ↦ some (record s { future = record s.future { next = update s.future.next i none } })
  | _ ↦ none
]

-- Deque `k` waits for that other future too, behind deque `i`, and links itself to it.
unfoldable pub link_behind : ℕ → ℕ → System → Option System
link_behind i k s = elim (s.getter i) [
  | waited v ↦ some (record s {
    future = record s.future { next = update s.future.next i (some k) };
    followed = update s.followed i true;
  })
  | _ ↦ none
]

-- A new future; the links of the deques hold what their last use left there.
abbrev pub new_future : ℕ → (ℕ → Option ℕ) → System
new_future garbage next = record {
  future = record { result = garbage; count = 0; tail = 0; next = update next 0 none };
  getter = λ i. idle;
  putter = computing;
  slot = λ k. 0;
  size = 0;
  place = λ i. 0;
  woken = [];
  followed = λ i. false;
}

-- The states that come of `s` by steps of the deques from 1 to `n` and of the worker that puts `v`.
-- Links are used for other futures only if that is allowed.
pub data Reach (n v : ℕ) (reuse : Bool) (s : System) : System → Type 0 where
  start : Reach n v reuse s s
  by_getter :
      {t u : System} (a : GetterAction) (i : ℕ)
      → Reach n v reuse s t
      → 0 < i
      → i ≤ n
      → getter_step a i t ≡ some u
      → Reach n v reuse s u
  by_putter :
      {t u : System} (a : PutterAction)
      → Reach n v reuse s t
      → putter_step v a t ≡ some u
      → Reach n v reuse s u
  by_reuse :
      {t u : System} (i : ℕ)
      → reuse ≡ true
      → Reach n v reuse s t
      → reuse_link i t ≡ some u
      → Reach n v reuse s u
  by_follower :
      {t u : System} (i k : ℕ)
      → reuse ≡ true
      → Reach n v reuse s t
      → link_behind i k t ≡ some u
      → Reach n v reuse s u
