-- ===== src/IoWorker.antt =====
-- The worker that performs reads and writes for its coworker: cilk-l/runtime/io_scheduler.cpp.
-- The state of files and pipes is a parameter, on which the system calls act. A size or pointer is a
-- word of 64 bits, and `-1` is its largest value.
mod Transfer
mod Requests
mod Keeping
mod Order
mod Interest
mod Tests
use cilk_l.Prelude.{
  ℕ, zero, suc, ◌+◌, ◌-◌, ◌%◌, ◌^◌, ◌≡◌, Bool, true, false, not, ◌&&◌, ◌||◌, Option, none, some,
  List, [], ◌∷◌, ◌++◌, ltb, leb, ◌==◌, if◌then◌else◌,
}

pub data Kind : Type 0 where
  iotype_read iotype_write : Kind

abbrev pub is_write : Kind → Bool
is_write iotype_read = false
is_write iotype_write = true

abbrev pub same_kind : Kind → Kind → Bool
same_kind iotype_read k = not (is_write k)
same_kind iotype_write k = is_write k

pub record Op : Type 0 where
  pub kind : Kind
  pub fildes : ℕ
  pub buf : ℕ
  pub nbyte : ℕ
  pub res : ℕ
  pub fut : ℕ

-- What a system call returns, as a word of 64 bits, and whether `errno` is EAGAIN or EWOULDBLOCK then.
pub record Reply : Type 0 where
  pub value : ℕ
  pub again : Bool

abbrev pub minus_one : ℕ
minus_one = 2 ^ 64 - 1

abbrev pub add : ℕ → ℕ → ℕ
add a b = (a + b) % 2 ^ 64

abbrev pub sub : ℕ → ℕ → ℕ
sub a b = (a + (2 ^ 64 - b)) % 2 ^ 64

-- The value as the `int` of 32 bits that it is stored in, extended to 64 bits again.
unfoldable pub int_of : ℕ → ℕ
int_of v = let low = v % 2 ^ 32 in if ltb low (2 ^ 31) then low else low + (2 ^ 64 - 2 ^ 32)

abbrev pub returned : Reply → ℕ
returned r = int_of r.value

abbrev pub is_negative : Reply → Bool
is_negative r = leb (2 ^ 63) (returned r)

abbrev pub is_positive : Reply → Bool
is_positive r = ltb 0 (returned r) && not (is_negative r)

-- What the loop does with the value that the call returned.
abbrev pub advance : ℕ → Op → Op
advance r op = record op { nbyte = sub op.nbyte r; res = add op.res r; buf = add op.buf r }

-- What is done after the loop, and whether the operation would have blocked.
abbrev pub undo : ℕ → Op → Op
undo r op = record op { nbyte = add op.nbyte r; buf = sub op.buf r }

abbrev pub settle : Reply → Op → Bool × Op
settle reply op =
    let r = returned reply in
    if is_negative reply
    then (if reply.again
        then (true, record (undo r op) { res = sub op.res r })
        else (false, record (undo r op) { res = minus_one }))
    else (false, op)

abbrev pub or_blocked :
    {World : Type 0} → Op → World → Option (Bool × Op × World) → Bool × Op × World
or_blocked op w none = (true, op, w)
or_blocked op w (some result) = result

module _ {World : Type 0} (syscall : Kind → ℕ → ℕ → ℕ → World → Reply × World) where
  -- The loop, with so many calls at most.
  unfoldable pub transfer : ℕ → Op → World → Option (Bool × Op × World)
  transfer zero op w = none
  transfer (suc fuel) op w =
      let (reply, w') = syscall op.kind op.fildes op.buf op.nbyte w in
      let op' = advance (returned reply) op in
      let rest = transfer fuel op' w' in
      if ltb 0 op'.nbyte && is_positive reply && is_write op.kind
      then rest
      else let (blocks, op'') = settle reply op' in some (blocks, op'', w')

  abbrev pub perform_io_until_block : Op → World → Option (Bool × Op × World)
  perform_io_until_block op w = transfer (suc op.nbyte) op w

  -- The operation and whether it would have blocked; there are always enough calls.
  unfoldable pub performs : Op → World → Bool × Op × World
  performs op w = or_blocked op w (perform_io_until_block op w)

-- `f[k][fd] = a`
abbrev pub assign {ℓ} : {A : Type ℓ} → (Kind → ℕ → A) → Kind → ℕ → A → Kind → ℕ → A
assign f k fd a k' fd' = if same_kind k k' && (fd == fd') then a else f k' fd'

-- `interest` is the event with which a file is registered for `epoll_wait`, and `completed` the
-- operations whose future has its value, with that value, in this order.
pub record Worker (World : Type 0) : Type 0 where
  pub blocked_ops : Kind → ℕ → List Op
  pub blocked : Kind → ℕ → Bool
  pub ready : Kind → ℕ → Bool
  pub interest : ℕ → Option Kind
  pub completed : List Op
  pub world : World

abbrev pub new_worker : {World : Type 0} → World → Worker World
new_worker w = record {
  blocked_ops = λ k fd. [];
  blocked = λ k fd. false;
  ready = λ k fd. false;
  interest = λ fd. none;
  completed = [];
  world = w;
}

-- `EPOLL_CTL_ADD` fails for a file that is registered, and the error is not looked at.
abbrev pub epoll_ctl_add : Kind → ℕ → (ℕ → Option Kind) → ℕ → Option Kind
epoll_ctl_add k fd interest fd' =
    if fd == fd' then elim (interest fd') [ none ↦ some k | some old ↦ some old ] else interest fd'

abbrev pub is_empty : List Op → Bool
is_empty [] = true
is_empty (op ∷ ops) = false

module _ {World : Type 0} (perform : Op → World → Bool × Op × World) where
  -- The loop of `handle_event`, on the operations that wait.
  unfoldable pub perform_all : List Op → World → List Op × List Op × World
  perform_all [] w = ([], [], w)
  perform_all (op ∷ ops) w =
      let (blocks, op', w') = perform op w in
      let (finished, left, w'') = perform_all ops w' in
      if blocks then ([], op' ∷ ops, w') else (op' ∷ finished, left, w'')

  unfoldable pub handle_event : Kind → ℕ → Worker World → Worker World
  handle_event k fd s =
      let (finished, left, w) = perform_all (s.blocked_ops k fd) s.world in
      record s {
        blocked_ops = assign s.blocked_ops k fd left;
        blocked = (if is_empty left then assign s.blocked k fd false else s.blocked);
        ready = (if is_empty left then assign s.ready k fd true else s.ready);
        completed = s.completed ++ finished;
        world = w;
      }

  -- An operation that is taken from the queue of the coworker.
  unfoldable pub take_op : Op → Worker World → Worker World
  take_op op s =
      let waiting = s.blocked_ops op.kind op.fildes in
      if s.blocked op.kind op.fildes
      then record s { blocked_ops = assign s.blocked_ops op.kind op.fildes (waiting ++ op ∷ []) }
      else let (blocks, op', w) = perform op s.world in
        if blocks
        then record s {
          ready = assign s.ready op.kind op.fildes false;
          blocked = assign s.blocked op.kind op.fildes true;
          blocked_ops = assign s.blocked_ops op.kind op.fildes (waiting ++ op' ∷ []);
          interest = epoll_ctl_add op.kind op.fildes s.interest;
          world = w;
        }
        else record s { completed = s.completed ++ op' ∷ []; world = w }

  -- The end of a round: `EPOLL_CTL_DEL` for the files that are ready.
  unfoldable pub clear_ready : Worker World → Worker World
  clear_ready s = record s {
    interest =
        λ fd. if s.ready iotype_read fd || s.ready iotype_write fd then none else s.interest fd;
    ready = λ k fd. false;
  }

-- What the loop of the worker does next.
pub data Event : Type 0 where
  triggered : Kind → ℕ → Event
  popped : Op → Event
  end_of_round : Event

-- The parts of the loop of `scheduler_thread_proc_for_io_worker`, in any order; `epoll_wait` reports
-- an event of a file only if the file is registered with it.
pub data Runs {World : Type 0} (perform : Op → World → Bool × Op × World) (s : Worker World)
    : List Event → Worker World → Type 0 where
  start : Runs perform s [] s
  trigger :
      {events : List Event} {t : Worker World} (k : Kind) (fd : ℕ)
      → Runs perform s events t
      → t.interest fd ≡ some k
      → Runs perform s (events ++ triggered k fd ∷ []) (handle_event perform k fd t)
  pop :
      {events : List Event} {t : Worker World} (op : Op)
      → Runs perform s events t
      → Runs perform s (events ++ popped op ∷ []) (take_op perform op t)
  finish :
      {events : List Event} {t : Worker World}
      → Runs perform s events t
      → Runs perform s (events ++ end_of_round ∷ []) (clear_ready perform t)
