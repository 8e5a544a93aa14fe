-- ===== src/Latency/Timer.antt =====
-- The timer of src/system_latency_optimizer.cpp: which requests are outstanding after
-- SetHighResolutionTimer and RestoreTimerResolution.
use disping.Common.{
  ◌&&◌, ℕ, ◌+◌, ◌-◌, String, ◌≡◌, refl, Bool, true, false, arith, ◌==◌, ltb, if◌then◌else◌,
}
use disping.Windows.Services.{TimerApi}
use disping.Latency.{
  TimerState, winmm_period, fall_back, set_high_resolution_timer, release, restore_timer_resolution,
}

-- The requests for a period that timeBeginPeriod has counted and timeEndPeriod has not yet undone, and
-- whether a request of NtSetTimerResolution stands.
pub record TimerLaws {W : Type 0} (timer : TimerApi W) : Type 0 where
  pub periods : W → ℕ → ℕ
  pub requested : W → Bool
  pub begins :
      (p : ℕ) (w : W) (q : ℕ)
      → periods (timer.time_begin_period p w).1 q
        ≡ (if (timer.time_begin_period p w).0 == 0 && q == p then periods w q + 1 else periods w q)
  pub ends :
      (p : ℕ) (w : W) (q : ℕ)
      → periods (timer.time_end_period p w).1 q ≡ (if q == p then periods w q - 1 else periods w q)
  pub sets :
      (n : ℕ) (on : Bool) (w : W) (q : ℕ)
      → periods (timer.nt_set_timer_resolution n on w).1 q ≡ periods w q
  pub set_requests :
      (n : ℕ) (on : Bool) (w : W)
      → requested (timer.nt_set_timer_resolution n on w).1
        ≡ (if (timer.nt_set_timer_resolution n on w).0.0 == 0 then on else requested w)
  pub begin_requests : (p : ℕ) (w : W) → requested (timer.time_begin_period p w).1 ≡ requested w
  pub end_requests : (p : ℕ) (w : W) → requested (timer.time_end_period p w).1 ≡ requested w

module _ {W : Type 0} (timer : TimerApi W) (show_ms : ℕ → String) (laws : TimerLaws timer) where
  open laws use {periods}

  -- Where ntdll has no NtSetTimerResolution and timeBeginPeriod succeeds, a target below two
  -- milliseconds is undone exactly by the restore; for a longer target the requested period
  -- stays requested, and a request for 1 ms is taken back in its place.
  pub restore-set_high_resolution_timer :
      (target : ℕ) (s : TimerState) (w : W) (q : ℕ)
      → timer.has_nt_set ≡ false
      → (timer.time_begin_period (winmm_period timer show_ms target) w).0 ≡ 0
      → let ((r, s1), w1) = set_high_resolution_timer timer show_ms target s w in
        let w2 = (restore_timer_resolution timer show_ms s1 w1).1 in
        periods w2 q ≡ (
          if ltb target 20000
          then periods w q
          else if q == winmm_period timer show_ms target
          then periods w q + 1
          else if q == 1
          then periods w q - 1
          else periods w q)
  unfolding set_high_resolution_timer fall_back restore_timer_resolution release
  restore-set_high_resolution_timer target s w q absent ok =
      let period = winmm_period timer show_ms target in
      let w1 = (timer.time_begin_period period w).1 in
      ground (arith, laws.begins period w q, laws.ends 1 w1 q)

  -- Where ntdll has NtSetTimerResolution and its call succeeds, a restore that has a timer to
  -- undo leaves no request of it standing, and a second restore leaves the state and the
  -- world as they are.
  pub restore_timer_resolution-twice :
      (s : TimerState) (w : W)
      → timer.has_nt_set ≡ true
      → s.timer_set ≡ true
      → (timer.nt_set_timer_resolution s.actual_resolution_units false w).0.0 ≡ 0
      → let ((r1, s1), w1) = restore_timer_resolution timer show_ms s w in
        let ((r2, s2), w2) = restore_timer_resolution timer show_ms s1 w1 in
        (laws.requested w1 ≡ false) × (s2 ≡ s1) × (w2 ≡ w1)
  unfolding restore_timer_resolution release
  restore_timer_resolution-twice s w there set ok =
      let units = s.actual_resolution_units in
      let w1 = (timer.nt_set_timer_resolution units false w).1 in
      let stands : laws.requested (timer.time_end_period 1 w1).1 ≡ false =
        ground (arith, laws.set_requests units false w, laws.end_requests 1 w1) in
      rw (set, there) (stands, refl, refl)
