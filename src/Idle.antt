-- ===== src/Idle.antt =====
-- How workers without work go to sleep and are woken: cilk-l/runtime/signal_node.c, and of scheduler.c
-- `notify_children`, `worker_runnable`, `check_for_work` and `pop_next_frame`.
-- The semaphore is the one of POSIX, a counter; a wait that would block is `none`.
pub mod Wakeup
pub mod Tree
pub mod Scheduling
mod Tests
use cilk_l.Prelude.{
  ℕ, zero, suc, ◌+◌, ◌-◌, ◌*◌, Bool, true, false, not, ◌&&◌, ◌||◌, Option, none, some, List, [],
  ◌∷◌, ltb, leb, ◌==◌, if◌then◌else◌, update,
}

-- `run` is 0 if the worker should wait, 1 if it should be running.
pub record SignalNode : Type 0 where
  pub run : ℕ
  pub sem : ℕ

unfoldable pub signal_node_create : SignalNode
signal_node_create = record { run = 0; sem = 0 }

abbrev pub signal_cilk_semaphore : SignalNode → SignalNode
signal_cilk_semaphore node = record node { sem = node.sem + 1 }

abbrev pub wait_on_cilk_semaphore : SignalNode → Option SignalNode
wait_on_cilk_semaphore node =
    if node.sem == 0 then none else some (record node { sem = node.sem - 1 })

abbrev pub signal_node_should_wait : SignalNode → Bool
signal_node_should_wait node = node.run == 0

-- `none` for a bad message, which the code asserts away.
unfoldable pub signal_node_msg : ℕ → SignalNode → Option SignalNode
signal_node_msg zero node = some (record node { run = 0 })
signal_node_msg (suc zero) node = some (signal_cilk_semaphore (record node { run = 1 }))
signal_node_msg (suc (suc n)) node = none

-- One message to the worker of a number; `none` if it has no signal node.
unfoldable pub tell : ℕ → ℕ → (ℕ → Option SignalNode) → Option (ℕ → Option SignalNode)
tell child msg nodes = elim (nodes child) [
  | none ↦ none
  | some node ↦ elim (signal_node_msg msg node) [
    | none ↦ none
    | some node' ↦ some (update nodes child (some node'))
  ]
]

-- `nodes` has the workers' signal nodes, and `p` is `g->P`. The caller is a system worker, so its
-- number is at least 1.
unfoldable pub notify_children :
    ℕ → ℕ → ℕ → (ℕ → Option SignalNode) → Option (ℕ → Option SignalNode)
notify_children p self msg nodes =
    let parent_num = self - 1 in
    let child_num = 2 * parent_num + 1 in
    let num_sys_workers = p - 1 in
    if ltb child_num num_sys_workers
    then elim (tell (child_num + 1) msg nodes) [
      | none ↦ none
      | some nodes' ↦
          if ltb (child_num + 1) num_sys_workers
          then tell (child_num + 2) msg nodes'
          else some nodes'
    ]
    else some nodes

-- The fields of a worker that the scheduling loop reads and writes. `next_frame_ff` is its queue of
-- one frame, and `pooled` the number of deques in its two pools.
pub record Worker : Type 0 where
  pub self : ℕ
  pub is_system : Bool
  pub next_frame_ff : Option ℕ
  pub steal_failure_count : ℕ
  pub node : SignalNode
  pub pooled : ℕ

pub record Globals : Type 0 where
  pub p : ℕ
  pub work_done : Bool
  pub max_steal_failures : ℕ
  pub io_normal : Bool

pub data Schedule : Type 0 where
  schedule_run : Schedule
  schedule_wait : Schedule
  schedule_exit : Schedule

abbrev pub forget_failures : Worker → Worker
forget_failures w = record w { steal_failure_count = 0 }

-- `none` is the failed assertion.
unfoldable pub worker_runnable : Globals → Worker → Option (Schedule × Worker)
worker_runnable g w = elim w.next_frame_ff [
  | some ff ↦ some (schedule_run, w)
  | none ↦
      let tired = ltb g.max_steal_failures w.steal_failure_count in
      let told = signal_node_should_wait w.node in
      if g.work_done
      then some (schedule_exit, w)
      else (if w.self == 1
          then (if tired
              then (if told
                  then some (schedule_wait, w)
                  else some (schedule_run, forget_failures w))
              else some (schedule_run, w))
          else (if w.is_system && told
              then some (schedule_wait, w)
              else (if ((g.p == 1) && tired) && g.io_normal
                  then (if ltb 0 w.pooled then some (schedule_run, forget_failures w) else none)
                  else some (schedule_run, w))))
]

abbrev pub pop_next_frame : Worker → Option ℕ × Worker
pop_next_frame w = (w.next_frame_ff, record w { next_frame_ff = none })

-- `stolen` is the frame that `random_steal` puts into the queue, if it steals one.
unfoldable pub check_for_work : Option ℕ → Worker → Option ℕ × Worker
check_for_work stolen w = elim w.next_frame_ff [
  | some ff ↦ pop_next_frame w
  | none ↦ elim stolen [
    | some ff ↦ (
      (pop_next_frame (record w { next_frame_ff = some ff })).0,
      forget_failures (pop_next_frame (record w { next_frame_ff = some ff })).1,
    )
    | none ↦
        let n = w.steal_failure_count in
        (none, record w { steal_failure_count = (if ltb 30000 n then n - 300 else n) + 1 })
  ]
]
