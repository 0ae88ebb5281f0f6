-- ===== src/Idle/Wakeup.antt =====
-- One worker that waits on its signal node and any number of threads that send it messages, step by
-- step: `signal_node_wait` and `signal_node_msg` of cilk-l/runtime/signal_node.c. A step is one access
-- to `run` or to the semaphore.
use cilk_l.Prelude.{
  ℕ, zero, suc, ◌+◌, ◌-◌, ◌<◌, ◌≤◌, ◌≡◌, refl, ◌⊎◌, Option, none, some, List, [], ◌∷◌, ◌==◌,
  if◌then◌else◌, arith, ℕ_discrete, Option-cases, inl, inr,
}
use cilk_l.Idle.{
  SignalNode, signal_node_create, signal_cilk_semaphore, wait_on_cilk_semaphore,
  signal_node_should_wait,
}

-- Outside `signal_node_wait`, in front of the loop's test, or in front of the semaphore.
pub data Waiter : Type 0 where
  awake : Waiter
  testing : Waiter
  waiting : Waiter

-- `posting` counts the threads that have stored `run = 1` and not yet signalled.
pub record Bell : Type 0 where
  pub node : SignalNode
  pub waiter : Waiter
  pub posting : ℕ

pub data Action : Type 0 where
  call_wait : Action
  test : Action
  acquire : Action
  store_run : Action
  post : Action
  store_wait : Action

unfoldable pub bell_step : Action → Bell → Option Bell
bell_step call_wait b = elim b.waiter [ awake ↦ some (record b { waiter = testing }) | _ ↦ none ]
bell_step test b = elim b.waiter [
  | testing ↦
      some (record b { waiter = (if signal_node_should_wait b.node then waiting else awake) })
  | _ ↦ none
]
bell_step acquire b = elim b.waiter [
  | waiting ↦ elim (wait_on_cilk_semaphore b.node) [
    | none ↦ none
    | some node ↦ some (record b { node = node; waiter = testing })
  ]
  | _ ↦ none
]
bell_step store_run b =
    some (record b { node = record b.node { run = 1 }; posting = b.posting + 1 })
bell_step post b =
    if b.posting == 0
    then none
    else some (record b { node = signal_cilk_semaphore b.node; posting = b.posting - 1 })
bell_step store_wait b = some (record b { node = record b.node { run = 0 } })

unfoldable pub bell_run : List Action → Bell → Option Bell
bell_run [] b = some b
bell_run (a ∷ rest) b = elim (bell_step a b) [ none ↦ none | some c ↦ bell_run rest c ]

unfoldable pub silent : Bell
unfolding signal_node_create
silent = record { node = signal_node_create; waiter = awake; posting = 0 }

-- Who waits though it has been told to run has a signal coming.
Promised : Bell → Type 0
Promised b = b.waiter ≡ waiting → b.node.run ≡ 1 → 0 < b.node.sem + b.posting

bell_step-Promised : (a : Action) (b c : Bell) → Promised b → bell_step a b ≡ some c → Promised c
unfolding bell_step Promised
bell_step-Promised call_wait b c h e = ground (arith, h, e)
bell_step-Promised test b c h e = ground (arith, h, e)
bell_step-Promised acquire b c h e = ground (arith, h, e)
bell_step-Promised store_run b c h e = ground (arith, h, e)
bell_step-Promised post b c h e = ground (arith, h, e)
bell_step-Promised store_wait b c h e = ground (arith, h, e)

bell_run-Promised :
    (rest : List Action) (b c : Bell) → Promised b → bell_run rest b ≡ some c → Promised c
unfolding bell_run Promised
bell_run-Promised [] b c h e = ground (arith, h, e)
bell_run-Promised (a ∷ rest) b c h e = elim (Option-cases (bell_step a b)) [
  | inl none_now ↦ ground (arith, none_now, e)
  | inr (d, now) ↦
      bell_run-Promised rest d c (bell_step-Promised a b d h now) (ground (arith, now, e))
]

-- The last `n` of the steps that wake a worker: a signal that is due, the end of its wait for it, and
-- the test of `run`.
unfoldable pub wake_up : ℕ → List Action
wake_up zero = []
wake_up (suc zero) = test ∷ []
wake_up (suc (suc zero)) = acquire ∷ test ∷ []
wake_up (suc (suc (suc n))) = post ∷ acquire ∷ test ∷ []

Waiter-cases : (w : Waiter) → (w ≡ awake) ⊎ ((w ≡ testing) ⊎ (w ≡ waiting))
Waiter-cases awake = inl refl
Waiter-cases testing = inr (inl refl)
Waiter-cases waiting = inr (inr refl)

wake :
    (b : Bell)
    → Promised b
    → b.node.run ≡ 1
    → (n : ℕ) × (c : Bell) × (n ≤ 3) × (bell_run (wake_up n) b ≡ some c) × (c.waiter ≡ awake)
unfolding bell_run bell_step wake_up Promised
wake b h running = elim (Waiter-cases b.waiter) [
  | inl e ↦ (0, b, omega arith, refl, e)
  | inr (inl e) ↦ (1, record b { waiter = awake }, omega arith, ground (arith, e), refl)
  | inr (inr e) ↦ elim (ℕ_discrete b.node.sem 0) [
    | no some_left ↦ (
      2,
      record b { node = record b.node { sem = b.node.sem - 1 }; waiter = awake },
      omega arith,
      ground (arith, e, some_left),
      refl,
    )
    | yes empty ↦ (
      3,
      record b { waiter = awake; posting = b.posting - 1 },
      omega arith,
      (let due = h e running in ground (arith, e, empty, due)),
      refl,
    )
  ]
]

-- In any state that a new signal node can come to while a worker waits on it and threads send it
-- messages: if `run` is 1, no wakeup is lost. Who waits has a signal in the semaphore or due from a
-- thread that stored `run`, and at most three steps, of which only such a signal is not the worker's
-- own, take the worker out of `signal_node_wait`.
pub no_lost_wakeup :
    (actions : List Action) (b : Bell)
    → bell_run actions silent ≡ some b
    → b.node.run ≡ 1
    → (b.waiter ≡ waiting → 0 < b.node.sem + b.posting)
      × (n : ℕ) × (c : Bell) × (n ≤ 3)
      × (bell_run (wake_up n) b ≡ some c)
      × (c.waiter ≡ awake)
unfolding Promised silent signal_node_create
no_lost_wakeup actions b e running =
    let promised = bell_run-Promised actions silent b (λ h. ground arith) e in
    let (n, c, le, run, up) = wake b promised running in
    (λ h. promised h running, n, c, le, run, up)
