-- ===== src/IoWorker/Transfer.antt =====
-- What `perform_io_until_block` leaves of an operation.
use cilk_l.Prelude.{ℕ, ◌+◌, ◌^◌, ◌≤◌, ◌<◌, ◌≡◌, ◌⊎◌, Bool, true, false, some}
use cilk_l.IoWorker.{Kind, is_write, Op, Reply, minus_one, transfer}

-- A call fails, or moves no more bytes than it is asked to and no more than 0x7ffff000, the most that
-- Linux transfers at a time; and a write of some bytes that does not fail moves some.
unfoldable pub IsSane : {World : Type 0} → (Kind → ℕ → ℕ → ℕ → World → Reply × World) → Type 0
IsSane {World} syscall =
    (k : Kind) (fd buf n : ℕ) (w : World)
    → ((syscall k fd buf n w).0.value ≡ minus_one)
      ⊎ (((syscall k fd buf n w).0.value ≤ n)
          × ((syscall k fd buf n w).0.value ≤ 2147479552)
          × (is_write k ≡ true → 0 < n → 0 < (syscall k fd buf n w).0.value))

-- The words do not overflow.
pub record Fits (op : Op) : Type 0 where
  pub res_fits : op.res + op.nbyte < 2 ^ 63
  pub buf_fits : op.buf + op.nbyte < 2 ^ 64

-- `op'` is what is left of `op`: it goes on where the bytes that are moved end.
pub record Left (op op' : Op) : Type 0 where
  pub kind : op'.kind ≡ op.kind
  pub fildes : op'.fildes ≡ op.fildes
  pub fut : op'.fut ≡ op.fut
  pub fewer : op'.nbyte ≤ op.nbyte
  pub total : op'.res + op'.nbyte ≡ op.res + op.nbyte
  pub place : op'.buf + op'.nbyte ≡ op.buf + op.nbyte

pub data Outcome (op : Op) : Bool → Op → Type 0 where
  blocked : {op' : Op} → Left op op' → Outcome op true op'
  finished :
      {op' : Op} → Left op op' → (is_write op.kind ≡ true → op'.nbyte ≡ 0) → Outcome op false op'
  failed : {op' : Op} → op'.fut ≡ op.fut → op'.res ≡ minus_one → Outcome op false op'

module _ {World : Type 0} (syscall : Kind → ℕ → ℕ → ℕ → World → Reply × World)
    (sane : IsSane syscall) where
  Transfers : ℕ → Op → World → Type 0
  Transfers fuel op w =
      (b : Bool) × (op' : Op) × (w' : World) × (transfer syscall fuel op w ≡ some (b, op', w'))
      × Outcome op b op'
