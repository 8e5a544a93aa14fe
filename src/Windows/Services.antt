-- ===== src/Windows/Services.antt =====
-- The service control manager, the timers of ntdll and winmm, and files.
use disping.Common.{ℕ, String, Bool, Option}
use disping.Common.State.{State}

pub record ServiceApi (W : Type 0) : Type 0 where
  -- handles; `none` stands for NULL
  pub open_sc_manager : State W (Option ℕ)
  pub open_service : ℕ → String → ℕ → State W (Option ℕ)
  pub control_service_stop : ℕ → State W Bool
  pub change_start_type : ℕ → ℕ → State W Bool
  pub close_service_handle : ℕ → State W Unit

pub record TimerApi (W : Type 0) : Type 0 where
  -- does ntdll have NtSetTimerResolution?
  pub has_nt_set : Bool
  -- status and actual resolution, from a resolution in units of 100 ns and SetResolution
  pub nt_set_timer_resolution : ℕ → Bool → State W (ℕ × ℕ)
  pub time_begin_period : ℕ → State W ℕ
  pub time_end_period : ℕ → State W ℕ

pub record FileApi (W : Type 0) : Type 0 where
  -- can the file be opened for reading?
  pub can_open : String → State W Bool
  -- the stream of a new file, `none` if it cannot be opened; text written to a stream
  pub open_output : String → State W (Option ℕ)
  pub write : ℕ → String → State W Unit
  pub close : ℕ → State W Unit
