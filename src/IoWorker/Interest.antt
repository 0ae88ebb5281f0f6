-- ===== src/IoWorker/Interest.antt =====
-- What happens to a write on a file that is registered for reads.
use cilk_l.Prelude.{
  ℕ, ◌≡◌, refl, ◌≢◌, ap, ap₂, ◌∙◌, Bool, true, false, some, List, [], ◌∷◌, ◌++◌, arith, ◌==◌, ◌&&◌,
  inl, inr,
}
use mathlib.Core.List.{append-nil, append_assoc}
use cilk_l.IoWorker.Requests.{key_cases}
use cilk_l.IoWorker.{
  Kind, iotype_read, iotype_write, same_kind, Op, Worker, handle_event, take_op, clear_ready, Event,
  Runs, start, trigger, pop, finish,
}

-- A write on `fd` is blocked, the operations `ops` wait first, and `fd` is not registered for writes.
pub record Unwatched {World : Type 0} (fd : ℕ) (ops : List Op) (s : Worker World) : Type 0 where
  pub blocks : s.blocked iotype_write fd ≡ true
  pub behind : (more : List Op) × (s.blocked_ops iotype_write fd ≡ ops ++ more)
  pub not_watched : s.interest fd ≢ some iotype_write

module _ {World : Type 0} (perform : Op → World → Bool × Op × World) (fd : ℕ) (ops : List Op) where
  trigger-Unwatched :
      {s : Worker World} (k : Kind) (gd : ℕ)
      → s.interest gd ≡ some k
      → Unwatched fd ops s
      → Unwatched fd ops (handle_event perform k gd s)
  unfolding handle_event
  trigger-Unwatched {s} k gd watched u = record {
    blocks = ground (arith, u.blocks, apart);
    behind = (u.behind.0, ground (arith, u.behind.1, apart));
    not_watched = u.not_watched;
  }
    where
      apart : same_kind k iotype_write && (gd == fd) ≡ false
      apart = go k watched
        where
          go : (k : Kind) → s.interest gd ≡ some k → same_kind k iotype_write && (gd == fd) ≡ false
          go iotype_read h = refl
          go iotype_write h = ground (arith, h, u.not_watched, ap s.interest)

  take_op-Unwatched :
      {s : Worker World} (op : Op) → Unwatched fd ops s → Unwatched fd ops (take_op perform op s)
  unfolding take_op
  take_op-Unwatched {s} op u = elim (key_cases op.kind iotype_write op.fildes fd) [
    | inl (kind, file) ↦
        let busy : s.blocked op.kind op.fildes ≡ true = ap₂ s.blocked kind file ∙ u.blocks in
        let waiting : s.blocked_ops op.kind op.fildes ≡ ops ++ u.behind.0 =
          ap₂ s.blocked_ops kind file ∙ u.behind.1 in
        record {
          blocks = ground (arith, busy, u.blocks);
          behind = (
            u.behind.0 ++ op ∷ [],
            ground (
              arith,
              busy,
              ap (λ k. same_kind k iotype_write) kind,
              file,
              waiting,
              append_assoc ops (u.behind.0) (op ∷ []),
            ),
          );
          not_watched = ground (arith, busy, u.not_watched);
        }
    | inr other ↦ record {
      blocks = ground (arith, u.blocks, other);
      behind = (u.behind.0, ground (arith, u.behind.1, other));
      not_watched = ground (arith, u.not_watched, other);
    }
  ]

  clear_ready-Unwatched :
      {s : Worker World} → Unwatched fd ops s → Unwatched fd ops (clear_ready perform s)
  unfolding clear_ready
  clear_ready-Unwatched {s} u = record {
    blocks = u.blocks;
    behind = u.behind;
    not_watched = ground (arith, u.not_watched);
  }

Runs-Unwatched :
    {World : Type 0} (perform : Op → World → Bool × Op × World) (fd : ℕ) (ops : List Op)
    (s t : Worker World) (events : List Event)
    → Unwatched fd ops s
    → Runs perform s events t
    → Unwatched fd ops t
Runs-Unwatched perform fd ops s t events u start = u
Runs-Unwatched perform fd ops s t events u (trigger {events = events'} {t = t'} k gd r watched) =
    trigger-Unwatched perform fd ops k gd watched (Runs-Unwatched perform fd ops s t' events' u r)
Runs-Unwatched perform fd ops s t events u (pop {events = events'} {t = t'} op r) =
    take_op-Unwatched perform fd ops op (Runs-Unwatched perform fd ops s t' events' u r)
Runs-Unwatched perform fd ops s t events u (finish {events = events'} {t = t'} r) =
    clear_ready-Unwatched perform fd ops (Runs-Unwatched perform fd ops s t' events' u r)

-- If a file is registered for reads and has no blocked write when a write on it would block, then the
-- registration for writes fails, and from then on, whatever the files do and whatever the worker is asked for, the write waits,
-- with what it still has to write, and each later write on the file waits behind it.
pub write_behind_read_waits :
    {World : Type 0} (perform : Op → World → Bool × Op × World) (op : Op) (s t : Worker World)
    (events : List Event)
    → op.kind ≡ iotype_write
    → s.blocked iotype_write op.fildes ≡ false
    → s.interest op.fildes ≡ some iotype_read
    → (perform op s.world).0 ≡ true
    → Runs perform (take_op perform op s) events t
    → ((more : List Op) × (t.blocked_ops iotype_write op.fildes
          ≡ s.blocked_ops iotype_write op.fildes ++ (perform op s.world).1 ∷ more))
      × (t.blocked iotype_write op.fildes ≡ true)
      × (t.interest op.fildes ≢ some iotype_write)
unfolding take_op
write_behind_read_waits perform op s t events kind free reads would_block r =
    let waiting = s.blocked_ops iotype_write op.fildes in
    let op' = (perform op s.world).1 in
    let here : s.blocked op.kind op.fildes ≡ false = ap (λ k. s.blocked k op.fildes) kind ∙ free in
    let queue : s.blocked_ops op.kind op.fildes ≡ waiting =
      ap (λ k. s.blocked_ops k op.fildes) kind in
    let u =
      Runs-Unwatched perform op.fildes (waiting ++ op' ∷ []) (take_op perform op s) t events
        (record {
          blocks = ground (arith, here, would_block, ap (λ k. same_kind k iotype_write) kind);
          behind = (
            [],
            ground (
              arith,
              here,
              would_block,
              queue,
              ap (λ k. same_kind k iotype_write) kind,
              append-nil (waiting ++ op' ∷ []),
            ),
          );
          not_watched = ground (arith, here, would_block, reads);
        })
        r in
    (
      (u.behind.0, u.behind.1 ∙ append_assoc waiting (op' ∷ []) (u.behind.0)),
      u.blocks,
      u.not_watched,
    )
