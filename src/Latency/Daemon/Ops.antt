-- ===== src/Latency/Daemon/Ops.antt =====
-- What clients do with the timer daemon of src/system_latency_optimizer.cpp, and what they see of it.
use disping.Common.{
  ℕ, String, ◌≡◌, Bool, true, false, Option, none, some, List, [], ◌∷◌, if◌then◌else◌,
}
use disping.Common.State.{State, ◌>>=◌, pure}
use disping.Windows.Services.{TimerApi}
use disping.Latency.Daemon.{
  Phase, starting, polling, done, TimerDaemon, worker_step, start_timer_daemon, stop_timer_daemon,
}

-- What can happen: the two calls of a client, and a step of the thread.
pub data DaemonOp : Type 0 where
  start : ℕ → DaemonOp
  stop tick : DaemonOp

-- The daemon as its clients see it: on or off.
abbrev pub replay : List DaemonOp → Bool → Bool
replay [] on = on
replay (start target ∷ ops) on = replay ops true
replay (stop ∷ ops) on = replay ops false
replay (tick ∷ ops) on = replay ops on

abbrev pub is_done : Phase → Bool
is_done (starting target) = false
is_done polling = false
is_done done = true

-- The thread is joinable exactly while the flag is on, has not ended then, and leaves no resolution behind.
pub record IsValid (d : TimerDaemon) : Type 0 where
  pub held : d.joinable ≡ d.running
  pub alive : d.running ≡ true → is_done d.phase ≡ false
  pub released : d.running ≡ false → d.state.timer_set ≡ false

-- A call that returns leaves a valid daemon, on or off as the client expects.
abbrev pub Returns : Bool → Option TimerDaemon → Type 0
Returns on none = ⊥
Returns on (some d) = IsValid d × (d.running ≡ on)

-- The destructor returns with the resolution restored.
abbrev pub Released : Option TimerDaemon → Type 0
Released none = ⊥
Released (some d) = (d.running ≡ false) × (d.joinable ≡ false) × (d.state.timer_set ≡ false)

-- What follows a call that has returned.
abbrev pub run_rest :
    {W : Type 0}
    → (TimerDaemon → State W (Option TimerDaemon))
    → Option TimerDaemon
    → State W (Option TimerDaemon)
run_rest k none = pure none
run_rest k (some d) = k d

module _ {W : Type 0} (timer : TimerApi W) (show_ms : ℕ → String) (sleep : ℕ → State W Unit) where
  unfoldable pub run_op : DaemonOp → TimerDaemon → State W (Option TimerDaemon)
  run_op (start target) d = pure (start_timer_daemon timer show_ms sleep target d)
  run_op stop d = stop_timer_daemon timer show_ms sleep d
  run_op tick d =
      if d.joinable
      then (do
        (phase, s) ← worker_step timer show_ms sleep d.running d.phase d.state
        pure (some record d { phase = phase; state = s }))
      else pure (some d)

  unfoldable pub run_ops : List DaemonOp → TimerDaemon → State W (Option TimerDaemon)
  run_ops [] d = pure (some d)
  run_ops (op ∷ ops) d = do r ← run_op op d; run_rest (run_ops ops) r
