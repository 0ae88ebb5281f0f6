-- ===== src/IoWorker/Keeping.antt =====
-- Performing an operation keeps its kind, its file and its future.
use cilk_l.Prelude.{
  arith, ltb, ℕ, zero, suc, ◌≡◌, refl, Bool, true, false, ◌&&◌, Option, none, some, if◌then◌else◌,
}
use cilk_l.IoWorker.{
  Kind, is_write, or_blocked, is_positive, Op, Reply, settle, advance, returned, transfer, performs,
  perform_io_until_block,
}

-- What the performing of an operation does not change.
unfoldable pub Keeps : {World : Type 0} → (Op → World → Bool × Op × World) → Type 0
Keeps {World} perform =
    (op : Op) (w : World)
    → ((perform op w).1.kind ≡ op.kind)
      × ((perform op w).1.fildes ≡ op.fildes)
      × ((perform op w).1.fut ≡ op.fut)

module _ {World : Type 0} (syscall : Kind → ℕ → ℕ → ℕ → World → Reply × World) where
  Kept : Op → Option (Bool × Op × World) → Type 0
  Kept op none = Unit
  Kept op (some (b, op', w)) = (op'.kind ≡ op.kind) × (op'.fildes ≡ op.fildes) × (op'.fut ≡ op.fut)

  if-Kept :
      (op : Op) (c : Bool) (x y : Option (Bool × Op × World))
      → Kept op x
      → Kept op y
      → Kept op (if c then x else y)
  if-Kept op true x y kept_x kept_y = kept_x
  if-Kept op false x y kept_x kept_y = kept_y

  settle-Kept :
      (op : Op) (r : Reply) (w : World) → Kept op (some ((settle r op).0, (settle r op).1, w))
  unfolding Kept
  settle-Kept op r w = ground arith

  transfer-Kept : (fuel : ℕ) (op : Op) (w : World) → Kept op (transfer syscall fuel op w)
  unfolding transfer Kept
  transfer-Kept zero op w = tt
  transfer-Kept (suc fuel) op w =
      let (reply, w') = syscall op.kind op.fildes op.buf op.nbyte w in
      let next = advance (returned reply) op in
      if-Kept op (ltb 0 next.nbyte && is_positive reply && is_write op.kind)
        (transfer syscall fuel next w') (some ((settle reply next).0, (settle reply next).1, w'))
        (transfer-Kept fuel next w') (settle-Kept next reply w')

  pub performs-Keeps : Keeps (performs syscall)
  unfolding performs Keeps Kept
  performs-Keeps op w = go (perform_io_until_block syscall op w) (transfer-Kept (suc op.nbyte) op w)
    where
      go :
          (r : Option (Bool × Op × World))
          → Kept op r
          → let (b, op', w') = or_blocked op w r in
            (op'.kind ≡ op.kind) × (op'.fildes ≡ op.fildes) × (op'.fut ≡ op.fut)
      go none kept = (refl, refl, refl)
      go (some result) kept = kept
