-- ===== src/Lib.antt =====
-- A verification library for the Cilk-L runtime: the work-stealing scheduler under cilk-l/runtime/
-- that runs spawned functions and futures on a team of workers.
--
-- The parts of the program. A worker keeps ready frames in a deque (deque.c); the code that the
-- compiler emits calls cilk-abi.c to push a frame when it spawns and to take it back when the
-- spawned function returns, and thieves take frames from the other end (scheduler.c). A stolen frame
-- and its children become full frames, whose reducer maps (reducer_impl.cpp) are merged as the
-- children return. A worker that suspends a deque keeps it in a pool (deque_pool.c); a deque is
-- suspended when it waits for a future (future.h), and whoever puts the value makes it resumable.
-- Reads and writes return futures, which a worker for I/O puts (io_scheduler.cpp). Full frames and
-- fibers get their memory from the frame allocator (frame_malloc.c).
--
-- The files.
--   Prelude               shared names, Boolean tests, lists and sums over the native numbers. An
--                         `Outcome` is a value, a failed assertion, or an access out of bounds.
--   Deque                 deque.h and deque.c, the deque part of cilk-abi.c, and the exception check of
--                         scheduler.c, one function for each function of the code. A pointer into `ltq`
--                         is a slot's number. Deque/Sequential has their laws one call after the other.
--   Deque/Protocol        the same operations as the steps of an owner and any number of thieves.
--                         `owner_step` and `thief_step` say what each access to shared memory does;
--                         Spec is the sequential queue, Inv the invariant, Linear the theorems.
--   DequePool             deque_pool.c: arrays of deques that know their own positions.
--   FrameMalloc           frame_malloc.c and frame_malloc.h: per-worker free lists over a global pool.
--                         A block is its address, a free list is a list; byte counts wrap around at
--                         2 ^ 64. Ledger has the accounts, Leaks whole sessions of a worker.
--   Reduction             the reducer protocol of scheduler.c: `locked_section` is what a returning child
--                         does under one acquisition of its parent's lock, `sync_round` what the parent
--                         does at a sync, `run` and `sync_run` a schedule.
--   Pedigree              the walk up a pedigree of cilk_api.c, call by call.
--   WorkerLock            worker_mutex.c and the worker locks of scheduler.c, as steps of any number of
--                         workers at one lock; Exclusion has their invariant.
--   Victim                the random choices: `myrand` takes the generator's state and returns the next.
--   Idle                  signal_node.c and the decisions of the scheduling loop. Wakeup has the waits and
--                         the messages as steps, Tree the messages down the tree of workers.
--   SpawnTree             full_frame.c and the sibling pointers of scheduler.c, on a heap of full frames.
--                         Siblings says which list of children a heap holds, youngest first.
--   CilkFor               cilk-abi-cilk-for.cpp: `cilk_for` has the tree of strands that a loop makes.
--                         Cover says which iterations a tree has, Grain and Overflow have the two cases
--                         of the grain size.
--   ReducerMap            reducer_impl.cpp: `insert_no_rehash`, `rehash` and `lookup` are the hash table.
--                         Merge is the merge of two maps, with the values of the views as a memory; its
--                         children follow the code from one element (Round) over a list of them (Loop)
--                         and the buckets (Arrays) to a map (Whole) and the choice of one (Maps), and
--                         Dropped counts the views that are destroyed. Hyper has the calls of a
--                         hyperobject on a worker. Serial puts the maps under the protocol of
--                         Reduction.
--   Reducers              the views of include/cilk: MinMax is reducer_min_max.h, Lists reducer_list.h,
--                         Vectors reducer_vector.h, Sums reducer_opadd.h. Serial puts them under the
--                         reducer protocol.
--   Futures               include/cilk/future.h with deque.c:83 and __spawn_future_helper. Moves is the
--                         steps as a relation; Linking, Counts, Entering and Waking keep the invariant
--                         (Chain, Counts, Walk, together Inv); Safety, Termination and Reuse use it.
--   IoWorker              io_scheduler.cpp. Transfer is perform_io_until_block; Keeping fills what Order
--                         asks of it, with the lists of Requests; Interest is the registration of files.
--
-- Bounds and fuel. `batch_loop` has one round more than `batch_size` has bytes and takes at least
-- one byte a round; `pop_loop` of `frame_malloc` has two rounds, since a batch is never empty; the
-- theorem on `frame_malloc` is that it returns a block. The depth of `cilk_for` needs to be one more
-- than the width of its count. The loop of perform_io_until_block has one call more than the
-- operation has bytes, and ends by its theorem. The other loops are structural, and what waits for
-- other threads is a step that is not possible yet. Byte counts, saved stack pointers and the random
-- generator wrap around as in the code, and so do the indices of a `cilk_for`; the sizes of reducer
-- maps, positions in an array, join counters, semaphores and counts of failures are numbers without
-- a bound.
--
-- What is not modelled. Memory is sequentially consistent: the fences of the code are taken to do
-- what they are for. Fibers, native stacks, saved contexts and exceptions are compiler and system
-- matters. Locks are steps that are possible when the lock is free. A deque of a future is made
-- resumable once it is suspended. The system calls of the I/O worker are a parameter. In ReducerMap
-- the values of views and the functions that reduce them are parameters; so are malloc, and the
-- addresses that the system gives. The memory of buckets is taken to be there. The loop of
-- repeated_merge_reducer_maps and force_reduce are left for later. Statistics, debugging output,
-- record and replay, the queue between the I/O worker and its coworker, and the code for Windows and
-- VxWorks are left out, and so is worker_trylock_other of scheduler.c, which nothing calls.
pub mod Prelude
pub mod Deque
pub mod DequePool
pub mod FrameMalloc
pub mod Reduction
pub mod Victim
pub mod Idle
pub mod SpawnTree
pub mod WorkerLock
pub mod Pedigree
pub mod CilkFor
pub mod ReducerMap
pub mod Reducers
pub mod Futures
pub mod IoWorker
