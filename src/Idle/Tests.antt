-- ===== src/Idle/Tests.antt =====
-- Sleeping and waking on small teams.
use cilk_l.Prelude.{false, ℕ, ◌≤◌, ◌<◌, ◌≡◌, refl, true, true, none, some, [], ◌∷◌}
use cilk_l.Idle.{signal_node_create, Worker, Globals}
use cilk_l.Idle.Wakeup.{
  Bell, Waiter, awake, waiting, call_wait, test, store_run, bell_step, bell_run, silent, wake_up,
  no_lost_wakeup,
}

-- A worker that has gone to sleep, and a thread that has stored `run` and not yet signalled.
abbrev asleep : Bell
asleep = record { node = record { run = 1; sem = 0 }; waiter = waiting; posting = 1 }

no_lost_wakeup_example :
    (◌≡◌ {A = Waiter} waiting waiting → 0 < 1)
    × (n : ℕ) × (c : Bell) × (n ≤ 3)
    × (bell_run (wake_up n) asleep ≡ some c)
    × (c.waiter ≡ awake)
unfolding bell_run bell_step silent signal_node_create
no_lost_wakeup_example = no_lost_wakeup (call_wait ∷ test ∷ store_run ∷ []) asleep refl refl

abbrev globals : Globals
globals = record { p = 4; work_done = false; max_steal_failures = 128; io_normal = true }

abbrev told_to_wait : Worker
told_to_wait = record {
  self = 3;
  is_system = true;
  next_frame_ff = none;
  steal_failure_count = 30001;
  node = record { run = 0; sem = 0 };
  pooled = 0;
}
