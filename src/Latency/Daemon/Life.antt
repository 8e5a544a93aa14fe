-- ===== src/Latency/Daemon/Life.antt =====
-- The life of the timer daemon of src/system_latency_optimizer.cpp.
use disping.Common.{
  ℕ, String, ◌≡◌, refl, ◌∙◌, Bool, true, false, Option, none, some, List, [], ◌∷◌, arith,
  Bool-cases, inl, inr,
}
use disping.Common.State.{State}
use disping.Windows.Services.{TimerApi}
use disping.Latency.{TimerState, set_high_resolution_timer, restore_timer_resolution}
use disping.Latency.Daemon.{
  Phase, starting, polling, done, TimerDaemon, no_daemon, worker_step, join, start_timer_daemon,
  joined, stop_timer_daemon,
}
use disping.Latency.Daemon.Ops.{
  DaemonOp, start, stop, tick, replay, is_done, IsValid, Returns, run_rest, run_op, run_ops,
}
use disping.Latency.Timer.{TimerLaws}
use disping.Latency.Daemon.Requests.{NtTimer, IdleDaemon, run_ops-Idle}

no_daemon-IsValid : IsValid no_daemon
no_daemon-IsValid = record { held = refl; alive = λ e. absurd (cc e); released = λ e. refl }

module _ {W : Type 0} (timer : TimerApi W) (show_ms : ℕ → String) (sleep : ℕ → State W Unit) where
  restore-timer_set :
      (s : TimerState) (w : W) → (restore_timer_resolution timer show_ms s w).0.1.timer_set ≡ false
  unfolding restore_timer_resolution
  restore-timer_set s w = ground arith

  -- Two steps of the thread are enough, and end with the timer restored.
  join-released :
      (phase : Phase) (s : TimerState) (w : W)
      → is_done phase ≡ false
      → (s' : TimerState) × ((join timer show_ms sleep 2 phase s w).0 ≡ some s')
        × (s'.timer_set ≡ false)
  unfolding join worker_step
  join-released (starting target) s w live =
      let ((r, s1), w1) = set_high_resolution_timer timer show_ms target s w in
      (_, refl, restore-timer_set s1 w1)
  join-released polling s w live = (_, refl, restore-timer_set s w)
  join-released done s w live = absurd (ground arith)

  start-on :
      (target : ℕ) (d : TimerDaemon)
      → d.running ≡ true
      → start_timer_daemon timer show_ms sleep target d ≡ some d
  unfolding start_timer_daemon
  start-on target d on = ground arith

  start-off :
      (target : ℕ) (d : TimerDaemon)
      → d.running ≡ false
      → d.joinable ≡ false
      → start_timer_daemon timer show_ms sleep target d
        ≡ some record d { running = true; joinable = true; phase = starting target }
  unfolding start_timer_daemon
  start-off target d off free = ground arith

  start-Returns :
      (target : ℕ) (d : TimerDaemon)
      → IsValid d
      → Returns true (start_timer_daemon timer show_ms sleep target d)
  start-Returns target d v = elim (Bool-cases d.running) [
    | inl on ↦ rw (start-on target d on) (v, on)
    | inr off ↦
        rw (start-off target d off (v.held ∙ off))
          (record { held = refl; alive = λ e. refl; released = λ e. absurd (cc e) }, refl)
  ]

  stop-off :
      (d : TimerDaemon) (w : W)
      → d.running ≡ false
      → (stop_timer_daemon timer show_ms sleep d w).0 ≡ some d
  unfolding stop_timer_daemon
  stop-off d w off = ground arith

  stop-on :
      (d : TimerDaemon) (w : W)
      → d.running ≡ true
      → d.joinable ≡ true
      → (stop_timer_daemon timer show_ms sleep d w).0
        ≡ joined timer show_ms sleep d (join timer show_ms sleep 2 d.phase d.state w).0
  unfolding stop_timer_daemon
  stop-on d w on held = ground arith

  stop-Returns :
      (d : TimerDaemon) (w : W)
      → IsValid d
      → Returns false (stop_timer_daemon timer show_ms sleep d w).0
  unfolding joined
  stop-Returns d w v = elim (Bool-cases d.running) [
    | inr off ↦ rw (stop-off d w off) (v, off)
    | inl on ↦
        let (s, e, set) = join-released d.phase d.state w (v.alive on) in
        rw (stop-on d w on (v.held ∙ on), e)
          (record { held = refl; alive = λ x. absurd (cc x); released = λ x. set }, refl)
  ]

  -- A thread that goes on under the flag does not end.
  worker_step-alive :
      (phase : Phase) (s : TimerState) (w : W)
      → is_done phase ≡ false
      → is_done (worker_step timer show_ms sleep true phase s w).0.0 ≡ false
  unfolding worker_step
  worker_step-alive (starting target) s w live = refl
  worker_step-alive polling s w live = refl
  worker_step-alive done s w live = live

  tick-off :
      (d : TimerDaemon) (w : W)
      → d.joinable ≡ false
      → (run_op timer show_ms sleep tick d w).0 ≡ some d
  unfolding run_op
  tick-off d w off = ground arith

  tick-on :
      (d : TimerDaemon) (w : W)
      → d.joinable ≡ true
      → (run_op timer show_ms sleep tick d w).0 ≡ (
          let (phase, s) = (worker_step timer show_ms sleep d.running d.phase d.state w).0 in
          some record d { phase = phase; state = s })
  unfolding run_op
  tick-on d w on = ground arith

  tick-Returns :
      (d : TimerDaemon) (w : W)
      → IsValid d
      → Returns d.running (run_op timer show_ms sleep tick d w).0
  tick-Returns d w v = elim (Bool-cases d.running) [
    | inr off ↦ rw (tick-off d w (v.held ∙ off)) (v, refl)
    | inl on ↦ rw (tick-on d w (v.held ∙ on)) (
      record {
        held = v.held;
        alive = λ e. rw (on) (worker_step-alive d.phase d.state w (v.alive on));
        released = λ e. absurd (cc (on, e));
      },
      refl,
    )
  ]

  run_op-Returns :
      (op : DaemonOp) (d : TimerDaemon) (w : W)
      → IsValid d
      → Returns (replay (op ∷ []) d.running) (run_op timer show_ms sleep op d w).0
  unfolding run_op
  run_op-Returns (start target) d w v = start-Returns target d v
  run_op-Returns stop d w v = stop-Returns d w v
  run_op-Returns tick d w v = tick-Returns d w v

  run_rest-Returns :
      (ops : List DaemonOp) (on : Bool) (r : Option TimerDaemon) (w : W)
      → Returns on r
      → ((d : TimerDaemon)
          → IsValid d
          → Returns (replay ops d.running) (run_ops timer show_ms sleep ops d w).0)
      → Returns (replay ops on) (run_rest (run_ops timer show_ms sleep ops) r w).0
  run_rest-Returns ops on none w h k = absurd h
  run_rest-Returns ops on (some d) w (v, e) k = rw⁻¹ e (k d v)

  replay-cons :
      (op : DaemonOp) (ops : List DaemonOp) (on : Bool)
      → replay (op ∷ ops) on ≡ replay ops (replay (op ∷ []) on)
  replay-cons (start target) ops on = refl
  replay-cons stop ops on = refl
  replay-cons tick ops on = refl

  run_ops-Returns :
      (ops : List DaemonOp) (d : TimerDaemon) (w : W)
      → IsValid d
      → Returns (replay ops d.running) (run_ops timer show_ms sleep ops d w).0
  unfolding run_ops
  run_ops-Returns [] d w v = (v, refl)
  run_ops-Returns (op ∷ ops) d w v =
      let w' = (run_op timer show_ms sleep op d w).1 in
      rw (replay-cons op ops d.running) (
        run_rest-Returns ops (replay (op ∷ []) d.running) (run_op timer show_ms sleep op d w).0 w'
          (run_op-Returns op d w v) λ d' v'. run_ops-Returns ops d' w' v')

module _ {W : Type 0} (timer : TimerApi W) (show_ms : ℕ → String) (sleep : ℕ → State W Unit)
    (laws : TimerLaws timer) (nt : NtTimer timer laws sleep) where
  valid-requested :
      (on : Bool) (r : Option TimerDaemon) (w : W)
      → Returns on r
      → IdleDaemon timer show_ms sleep laws nt r w
      → on ≡ false
      → laws.requested w ≡ false
  valid-requested on none w h idle off = absurd h
  valid-requested on (some d) w (v, e) idle off = idle (v.released (e ∙ off))

  -- If ntdll has NtSetTimerResolution, whose call withdraws the request, a sleep changes no
  -- request and none stands at the start, then any sequence of starts, stops and steps of the
  -- timer's thread from a new optimizer returns, neither in std::terminate nor in a join that
  -- never ends, and leaves the daemon on or off as the last start or stop says; its thread is
  -- joinable exactly while it is on, and while it is off m_timerSet is false and no request
  -- through NtSetTimerResolution stands.
  pub run_ops_refines :
      (ops : List DaemonOp) (w : W)
      → laws.requested w ≡ false
      → let (r, w') = run_ops timer show_ms sleep ops no_daemon w in
        Returns (replay ops false) r × (replay ops false ≡ false → laws.requested w' ≡ false)
  run_ops_refines ops w quiet =
      let (r, w') = run_ops timer show_ms sleep ops no_daemon w in
      let h = run_ops-Returns timer show_ms sleep ops no_daemon w no_daemon-IsValid in
      let idle = run_ops-Idle timer show_ms sleep laws nt ops no_daemon w (λ off. quiet) in
      (h, valid-requested (replay ops false) r w' h idle)
