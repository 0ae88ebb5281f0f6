-- ===== src/Idle/Scheduling.antt =====
-- What a worker does next: `worker_runnable` and `check_for_work` of cilk-l/runtime/scheduler.c.
use cilk_l.Prelude.{ℕ, ◌<◌, ◌≤◌, ◌≡◌, ◌≢◌, ◌⊎◌, true, false, Option, none, some, arith}
use cilk_l.Idle.{
  Worker, Globals, Schedule, schedule_run, schedule_wait, schedule_exit, forget_failures,
  worker_runnable, check_for_work,
}

-- What `worker_runnable` answers. A worker with a frame runs. To wait it has no frame, the runtime is
-- not done, its node tells it to, and it is the root or a system worker; and a system worker with no
-- frame that is told to wait, and is not the root, does wait if the runtime is not done. To exit it has
-- no frame and the runtime is done. The count of failures is kept, or set to 0 on an answer to run
-- after more failures than the limit.
pub worker_runnable_lem :
    (g : Globals) (w w' : Worker) (s : Schedule)
    → worker_runnable g w ≡ some (s, w')
    → ((ff : ℕ) → w.next_frame_ff ≡ some ff → s ≡ schedule_run)
      × (s ≡ schedule_wait
          → (w.next_frame_ff ≡ none)
            × (g.work_done ≡ false)
            × (w.node.run ≡ 0)
            × ((w.self ≡ 1) ⊎ (w.is_system ≡ true)))
      × (w.next_frame_ff ≡ none
          → g.work_done ≡ false
          → w.node.run ≡ 0
          → w.self ≢ 1
          → w.is_system ≡ true
          → s ≡ schedule_wait)
      × (s ≡ schedule_exit → (w.next_frame_ff ≡ none) × (g.work_done ≡ true))
      × ((w' ≡ w)
          ⊎ ((s ≡ schedule_run)
              × (g.max_steal_failures < w.steal_failure_count)
              × (w' ≡ forget_failures w)))
unfolding worker_runnable
worker_runnable_lem g w w' s e = (
  λ ff h. ground (arith, e, h),
  λ h. ground (arith, e, h),
  λ a b c d u. ground (arith, e, a, b, c, d, u),
  λ h. ground (arith, e, h),
  ground (arith, e),
)

-- `check_for_work` takes the frame that waits in the worker's queue, and only if there is none the one
-- that is stolen, and leaves the queue empty. The count of failed steals stays below 30002, or falls.
pub check_for_work_lem :
    (stolen : Option ℕ) (w : Worker)
    → ((ff : ℕ) → w.next_frame_ff ≡ some ff → (check_for_work stolen w).0 ≡ some ff)
      × (w.next_frame_ff ≡ none → (check_for_work stolen w).0 ≡ stolen)
      × ((check_for_work stolen w).1.next_frame_ff ≡ none)
      × (w.steal_failure_count ≤ 30001 → (check_for_work stolen w).1.steal_failure_count ≤ 30001)
      × (30001 < w.steal_failure_count
          → w.next_frame_ff ≡ none
          → (check_for_work stolen w).1.steal_failure_count < w.steal_failure_count)
unfolding check_for_work
check_for_work_lem stolen w = (
  λ ff h. ground (arith, h),
  λ h. ground (arith, h),
  ground arith,
  λ h. ground (arith, h),
  λ h h'. ground (arith, h, h'),
)
