-- ===== src/Latency/Daemon.antt =====
-- The timer daemon of src/system_latency_optimizer.cpp, a thread that holds the resolution until it is stopped, and
-- QueryTimerResolution.
pub mod Ops
pub mod Requests
pub mod Life
use disping.Common.{
  ℕ, zero, suc, String, Bool, true, false, Option, none, some, List, [], ◌∷◌, ◌==◌, if◌then◌else◌,
}
use disping.Common.State.{State, ◌>>=◌, ◌>>◌, pure}
use disping.Windows.Services.{TimerApi}
use disping.Latency.{TimerState, new_optimizer, set_high_resolution_timer, restore_timer_resolution}

-- NtQueryTimerResolution, if ntdll has it: status, and three numbers of units of 100 ns.
unfoldable pub query_timer_resolution :
    {W : Type 0} → Option (State W (ℕ × ℕ × ℕ × ℕ)) → State W (Option (ℕ × ℕ × ℕ))
query_timer_resolution none = pure none
query_timer_resolution (some nt_query) = do
  (status, min_units, max_units, curr_units) ← nt_query
  pure (if status == 0 then some (min_units, max_units, curr_units) else none)

-- Where the thread's function is: before SetHighResolutionTimer, at the test of the loop, at its end.
pub data Phase : Type 0 where
  starting : ℕ → Phase
  polling done : Phase

-- `m_daemonRunning`, `m_daemonThread` (is it joinable, and where is its function) and the fields of the timer.
pub record TimerDaemon : Type 0 where
  pub running : Bool
  pub joinable : Bool
  pub phase : Phase
  pub state : TimerState

abbrev pub no_daemon : TimerDaemon
no_daemon = record { running = false; joinable = false; phase = done; state = new_optimizer }

module _ {W : Type 0} (timer : TimerApi W) (show_ms : ℕ → String) (sleep : ℕ → State W Unit) where
  -- One step of the thread, under a value of the flag.
  unfoldable pub worker_step : Bool → Phase → TimerState → State W (Phase × TimerState)
  worker_step running (starting target) s = do
    (r, s') ← set_high_resolution_timer timer show_ms target s
    pure (polling, s')
  worker_step true polling s = do sleep 100; pure (polling, s)
  worker_step false polling s = do
    (r, s') ← restore_timer_resolution timer show_ms s
    pure (done, s')
  worker_step running done s = pure (done, s)

  -- `join` once the flag is off: the steps of the thread up to its end, `none` where the fuel is too little.
  unfoldable pub join : ℕ → Phase → TimerState → State W (Option TimerState)
  join fuel done s = pure (some s)
  join zero (starting target) s = pure none
  join zero polling s = pure none
  join (suc fuel) (starting target) s = do
    (phase, s') ← worker_step false (starting target) s
    join fuel phase s'
  join (suc fuel) polling s = do (phase, s') ← worker_step false polling s; join fuel phase s'

  -- A thread is assigned: std::terminate, `none`, if the old one is joinable.
  unfoldable pub start_timer_daemon : ℕ → TimerDaemon → Option TimerDaemon
  start_timer_daemon target d =
      if d.running
      then some d
      else if d.joinable
      then none
      else some record d { running = true; joinable = true; phase = starting target }

  unfoldable pub joined : TimerDaemon → Option TimerState → Option TimerDaemon
  joined d none = none
  joined d (some s) = some record { running = false; joinable = false; phase = done; state = s }

  -- `none` if `join` never returns.
  unfoldable pub stop_timer_daemon : TimerDaemon → State W (Option TimerDaemon)
  stop_timer_daemon d =
      if d.running
      then (if d.joinable
          then (do s ← join 2 d.phase d.state; pure (joined d s))
          else pure (some record d { running = false }))
      else pure (some d)

  unfoldable pub restored : Option TimerDaemon → State W (Option TimerDaemon)
  restored none = pure none
  restored (some d) = do
    (r, s) ← restore_timer_resolution timer show_ms d.state
    pure (if d.joinable then none else some record d { state = s })

  -- The destructor, with that of the thread at its end.
  unfoldable pub destroy_optimizer : TimerDaemon → State W (Option TimerDaemon)
  destroy_optimizer d = do stopped ← stop_timer_daemon d; restored stopped
