-- ===== src/Latency/Daemon/Requests.antt =====
-- The request of NtSetTimerResolution that the timer daemon of src/system_latency_optimizer.cpp makes and takes back.
use disping.Common.{
  ℕ, zero, suc, String, ◌≡◌, Bool, true, false, Option, none, some, List, [], ◌∷◌, arith,
  Bool-cases, inl, inr,
}
use disping.Common.State.{State}
use disping.Windows.Services.{TimerApi}
use disping.Latency.{
  TimerState, desired_units, winmm_period, fall_back, set_high_resolution_timer, release,
  restore_timer_resolution,
}
use disping.Latency.Timer.{TimerLaws}
use disping.Latency.Daemon.{
  Phase, starting, polling, done, TimerDaemon, worker_step, join, start_timer_daemon, joined,
  stop_timer_daemon, restored,
}
use disping.Latency.Daemon.Ops.{DaemonOp, start, stop, tick, run_rest, run_op, run_ops}

-- ntdll has NtSetTimerResolution, its call that takes a request back succeeds, and a sleep changes no request.
pub record NtTimer {W : Type 0} (timer : TimerApi W) (laws : TimerLaws timer)
    (sleep : ℕ → State W Unit) : Type 0 where
  pub there : timer.has_nt_set ≡ true
  pub undone : (n : ℕ) (w : W) → (timer.nt_set_timer_resolution n false w).0.0 ≡ 0
  pub sleeps : (n : ℕ) (w : W) → laws.requested (sleep n w).1 ≡ laws.requested w

module _ {W : Type 0} (timer : TimerApi W) (show_ms : ℕ → String) (sleep : ℕ → State W Unit)
    (laws : TimerLaws timer) (nt : NtTimer timer laws sleep) where
  -- With the flag off no request stands.
  abbrev pub Idle : TimerState → W → Type 0
  Idle s w = s.timer_set ≡ false → laws.requested w ≡ false

  abbrev pub IdleState : Option TimerState → W → Type 0
  IdleState none w = Unit
  IdleState (some s) w = Idle s w

  abbrev pub IdleDaemon : Option TimerDaemon → W → Type 0
  IdleDaemon none w = Unit
  IdleDaemon (some d) w = Idle d.state w

  set-Idle :
      (target : ℕ) (s : TimerState) (w : W)
      → Idle s w
      → let ((r, s'), w') = set_high_resolution_timer timer show_ms target s w in Idle s' w'
  unfolding set_high_resolution_timer fall_back
  set-Idle target s w idle =
      let units = desired_units timer show_ms target in
      let w1 = (timer.nt_set_timer_resolution units true w).1 in
      λ off. ground (
        arith,
        idle,
        nt.there,
        laws.set_requests units true w,
        laws.begin_requests (winmm_period timer show_ms target) w1,
      )

  restore-Idle :
      (s : TimerState) (w : W)
      → Idle s w
      → laws.requested (restore_timer_resolution timer show_ms s w).1 ≡ false
  unfolding restore_timer_resolution release
  restore-Idle s w idle =
      let units = s.actual_resolution_units in
      let w1 = (timer.nt_set_timer_resolution units false w).1 in
      ground (
        arith,
        nt.there,
        nt.undone units w,
        laws.set_requests units false w,
        laws.end_requests 1 w1,
      )

  worker_step-Idle :
      (running : Bool) (phase : Phase) (s : TimerState) (w : W)
      → Idle s w
      → let ((phase', s'), w') = worker_step timer show_ms sleep running phase s w in Idle s' w'
  unfolding worker_step
  worker_step-Idle running (starting target) s w idle = set-Idle target s w idle
  worker_step-Idle true polling s w idle = λ off. rw (nt.sleeps 100 w) (idle off)
  worker_step-Idle false polling s w idle = λ off. restore-Idle s w idle
  worker_step-Idle true done s w idle = idle
  worker_step-Idle false done s w idle = idle

  join-Idle :
      (fuel : ℕ) (phase : Phase) (s : TimerState) (w : W)
      → Idle s w
      → let (r, w') = join timer show_ms sleep fuel phase s w in IdleState r w'
  unfolding join
  join-Idle zero done s w idle = idle
  join-Idle (suc fuel) done s w idle = idle
  join-Idle zero (starting target) s w idle = tt
  join-Idle zero polling s w idle = tt
  join-Idle (suc fuel) (starting target) s w idle =
      let ((phase, s'), w') = worker_step timer show_ms sleep false (starting target) s w in
      join-Idle fuel phase s' w' (worker_step-Idle false (starting target) s w idle)
  join-Idle (suc fuel) polling s w idle =
      let ((phase, s'), w') = worker_step timer show_ms sleep false polling s w in
      join-Idle fuel phase s' w' (worker_step-Idle false polling s w idle)

  joined-Idle :
      (d : TimerDaemon) (r : Option TimerState) (w : W)
      → IdleState r w
      → IdleDaemon (joined timer show_ms sleep d r) w
  unfolding joined
  joined-Idle d none w idle = tt
  joined-Idle d (some s) w idle = idle

  start-Idle :
      (target : ℕ) (d : TimerDaemon) (w : W)
      → Idle d.state w
      → IdleDaemon (start_timer_daemon timer show_ms sleep target d) w
  unfolding start_timer_daemon
  start-Idle target d w idle = elim (Bool-cases d.running) [
    | inl on ↦ rw on idle
    | inr off ↦ elim (Bool-cases d.joinable) [
      | inl held ↦ rw (off, held) tt
      | inr free ↦ rw (off, free) idle
    ]
  ]

  pub stop-Idle :
      (d : TimerDaemon) (w : W)
      → Idle d.state w
      → let (r, w') = stop_timer_daemon timer show_ms sleep d w in IdleDaemon r w'
  unfolding stop_timer_daemon joined
  stop-Idle d w idle = elim (Bool-cases d.running) [
    | inr off ↦ rw off idle
    | inl on ↦ elim (Bool-cases d.joinable) [
      | inr free ↦ rw (on, free) idle
      | inl held ↦
          let (s, w') = join timer show_ms sleep 2 d.phase d.state w in
          rw (on, held) (joined-Idle d s w' (join-Idle 2 d.phase d.state w idle))
    ]
  ]

  run_op-Idle :
      (op : DaemonOp) (d : TimerDaemon) (w : W)
      → Idle d.state w
      → let (r, w') = run_op timer show_ms sleep op d w in IdleDaemon r w'
  unfolding run_op
  run_op-Idle (start target) d w idle = start-Idle target d w idle
  run_op-Idle stop d w idle = stop-Idle d w idle
  run_op-Idle tick d w idle = elim (Bool-cases d.joinable) [
    | inl held ↦ rw held (worker_step-Idle d.running d.phase d.state w idle)
    | inr free ↦ rw free idle
  ]

  run_rest-Idle :
      (ops : List DaemonOp) (r : Option TimerDaemon) (w : W)
      → ((d : TimerDaemon) (v : W)
          → Idle d.state v
          → let (q, v') = run_ops timer show_ms sleep ops d v in IdleDaemon q v')
      → IdleDaemon r w
      → let (q, w') = run_rest (run_ops timer show_ms sleep ops) r w in IdleDaemon q w'
  run_rest-Idle ops none w k idle = tt
  run_rest-Idle ops (some d) w k idle = k d w idle

  pub run_ops-Idle :
      (ops : List DaemonOp) (d : TimerDaemon) (w : W)
      → Idle d.state w
      → let (r, w') = run_ops timer show_ms sleep ops d w in IdleDaemon r w'
  unfolding run_ops
  run_ops-Idle [] d w idle = idle
  run_ops-Idle (op ∷ ops) d w idle =
      let (r, w1) = run_op timer show_ms sleep op d w in
      run_rest-Idle ops r w1 (run_ops-Idle ops) (run_op-Idle op d w idle)

  -- The last calls of the destructor leave no request.
  pub restored-Idle :
      (d : TimerDaemon) (w : W)
      → Idle d.state w
      → laws.requested (restored timer show_ms sleep (some d) w).1 ≡ false
  unfolding restored
  restored-Idle d w idle = restore-Idle d.state w idle
