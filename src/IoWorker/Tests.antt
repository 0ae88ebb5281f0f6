-- ===== src/IoWorker/Tests.antt =====
-- Reads and writes on one file, with calls that move a few bytes or block.
use cilk_l.Prelude.{
  ℕ, zero, suc, ◌≡◌, refl, ◌≢◌, Bool, true, false, not, some, List, [], ◌∷◌, ◌++◌, map,
  if◌then◌else◌, ltb,
}
use cilk_l.IoWorker.{
  Kind, iotype_read, iotype_write, Op, Reply, minus_one, int_of, perform_io_until_block, performs,
  transfer, Worker, new_worker, is_empty, handle_event, take_op, clear_ready, triggered, popped,
  end_of_round, start, trigger, pop, finish,
}
use cilk_l.IoWorker.Requests.{futs}
use cilk_l.IoWorker.Keeping.{performs-Keeps}
use cilk_l.IoWorker.Order.{performed_in_order}
use cilk_l.IoWorker.Interest.{write_behind_read_waits}

abbrev least : ℕ → ℕ → ℕ
least a b = if ltb a b then a else b

-- The calls move so many bytes, or block at 0.
abbrev scripted : Kind → ℕ → ℕ → ℕ → List ℕ → Reply × List ℕ
scripted k fd buf n [] = (record { value = minus_one; again = true }, [])
scripted k fd buf n (zero ∷ script) = (record { value = minus_one; again = true }, script)
scripted k fd buf n (suc m ∷ script) =
    (record { value = least n (least (suc m) 2147479552); again = false }, script)

abbrev ten_bytes : Kind → ℕ → Op
ten_bytes k fut = record { kind = k; fildes = 3; buf = 4096; nbyte = 10; res = 0; fut = fut }

-- A write of ten bytes that blocks after the first four.
test_blocks :
    perform_io_until_block scripted (ten_bytes iotype_write 1) (4 ∷ 0 ∷ [])
    ≡ some (true, record (ten_bytes iotype_write 1) { buf = 4100; nbyte = 6; res = 4 }, [])
unfolding transfer int_of
test_blocks = refl

abbrev perform : Op → List ℕ → Bool × Op × List ℕ
perform = performs scripted

abbrev one_blocked : Worker (List ℕ)
one_blocked = take_op perform (ten_bytes iotype_read 1) (new_worker (0 ∷ 0 ∷ 7 ∷ 9 ∷ []))

performed_in_order_example :
    (futs iotype_read 3 (ten_bytes iotype_read 1 ∷ ten_bytes iotype_read 2 ∷ [])
      ≡ futs iotype_read 3 (take_op perform (ten_bytes iotype_read 2) one_blocked).completed
        ++ map
            (λ op. op.fut)
            ((take_op perform (ten_bytes iotype_read 2) one_blocked).blocked_ops iotype_read 3))
    × ((take_op perform (ten_bytes iotype_read 2) one_blocked).blocked iotype_read 3
        ≡ not (
            is_empty
              ((take_op perform (ten_bytes iotype_read 2) one_blocked).blocked_ops iotype_read 3)))
performed_in_order_example =
    performed_in_order perform (0 ∷ 0 ∷ 7 ∷ 9 ∷ [])
      (popped (ten_bytes iotype_read 1) ∷ popped (ten_bytes iotype_read 2) ∷ [])
      (take_op perform (ten_bytes iotype_read 2) one_blocked) iotype_read 3
      (performs-Keeps scripted)
      (pop (ten_bytes iotype_read 2) (pop (ten_bytes iotype_read 1) start))

-- The read is finished later, and its file is no longer registered; the write still waits.
abbrev stuck : Worker (List ℕ)
stuck = take_op perform (ten_bytes iotype_write 2) one_blocked

abbrev later : Worker (List ℕ)
later = clear_ready perform (handle_event perform iotype_read 3 stuck)

write_behind_read_waits_example :
    ((more : List Op) × (later.blocked_ops iotype_write 3
        ≡ one_blocked.blocked_ops iotype_write 3
          ++ (perform (ten_bytes iotype_write 2) one_blocked.world).1 ∷ more))
    × (later.blocked iotype_write 3 ≡ true)
    × (later.interest 3 ≢ some iotype_write)
unfolding take_op performs transfer int_of
write_behind_read_waits_example =
    write_behind_read_waits perform (ten_bytes iotype_write 2) one_blocked later
      (triggered iotype_read 3 ∷ end_of_round ∷ []) refl refl refl refl
      (finish (trigger iotype_read 3 start refl))
