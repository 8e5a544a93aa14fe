-- ===== src/Latency.antt =====
-- src/system_latency_optimizer.cpp: the timer resolution, the MMCSS profile, memory management and the
-- location service. A time in milliseconds is a number of units of 100 ns.
pub mod Timer
pub mod Daemon
use Prim.Native.String.{◌++◌}
use disping.Common.{
  ℕ, ◌*◌, ◌/◌, ◌%◌, String, Bool, true, false, not, Option, none, some, List, [], ◌∷◌,
  OperationResult, fresh_result, result, ltb, ◌==◌, if◌then◌else◌,
}
use disping.Common.State.{State, ◌>>=◌, ◌>>◌, pure}
use disping.Common.Text.{to_string}
use disping.Windows.Registry.{hklm}
use disping.Windows.Services.{ServiceApi, TimerApi}
use disping.Store.{RegistryStore}

-- The fields of `SystemLatencyOptimizer` that the timer uses.
pub record TimerState : Type 0 where
  pub timer_set : Bool
  pub actual_resolution_units : ℕ
  pub active_resolution : ℕ

abbrev pub new_optimizer : TimerState
new_optimizer = record {
  timer_set = false;
  actual_resolution_units = 0;
  active_resolution = 156250;
}

module _ {W : Type 0} (timer : TimerApi W) (show_ms : ℕ → String) where
  -- `desiredUnits`, never less than half a millisecond.
  abbrev pub desired_units : ℕ → ℕ
  desired_units target = if ltb target 5000 then 5000 else target

  -- `period`: at least one millisecond, cut to whole milliseconds.
  abbrev pub winmm_period : ℕ → ℕ
  winmm_period target = if ltb target 10000 then 1 else target / 10000

  unfoldable pub fall_back : ℕ → TimerState → State W (OperationResult × TimerState)
  fall_back target s = do
    let period = winmm_period target
    status ← timer.time_begin_period period
    if status == 0
        then pure (
          result true
              ("OS Timer Resolution set to " ++ to_string period ++ ".0 ms via timeBeginPeriod."),
          record s { timer_set = true; active_resolution = period * 10000 },
        )
        else pure (result false "Failed to set high-resolution timer.", s)

  unfoldable pub set_high_resolution_timer : ℕ → TimerState → State W (OperationResult × TimerState)
  set_high_resolution_timer target s = if not timer.has_nt_set then fall_back target s else do
    (status, actual) ← timer.nt_set_timer_resolution (desired_units target) true
    if status == 0
        then pure (
          result true (
              "OS Timer Resolution locked to ultra-low "
              ++ show_ms actual
              ++ " ms (NtSetTimerResolution)."),
          record s {
            timer_set = true;
            actual_resolution_units = actual;
            active_resolution = actual;
          },
        )
        else fall_back target s

  -- The calls that undo the resolution.
  unfoldable pub release : TimerState → State W Unit
  release s =
      if timer.has_nt_set
      then (do
        timer.nt_set_timer_resolution s.actual_resolution_units false
        timer.time_end_period 1
        pure tt)
      else do timer.time_end_period 1; pure tt

  unfoldable pub restore_timer_resolution : TimerState → State W (OperationResult × TimerState)
  restore_timer_resolution s =
      if s.timer_set
      then (do
        release s
        pure (result true "Restored default OS timer resolution.", record s { timer_set = false }))
      else pure (result true "Timer resolution was not overridden.", s)

module _ {W : Type 0} (store : RegistryStore W) where
  abbrev pub task_games_key : String
  task_games_key =
      "SOFTWARE\\Microsoft\\Windows NT\\CurrentVersion\\Multimedia\\SystemProfile\\Tasks\\Games"

  unfoldable pub optimize_mmcss_games_profile : State W OperationResult
  optimize_mmcss_games_profile = do
    admin ← store.is_running_as_admin
    if not admin
        then pure (result false "Administrator privileges required to optimize MMCSS.")
        else do
          store.set_dword hklm task_games_key "Affinity" 0
          store.set_string hklm task_games_key "Background Only" "False"
          store.set_dword hklm task_games_key "Clock Rate" 10000
          store.set_dword hklm task_games_key "GPU Priority" 8
          store.set_dword hklm task_games_key "Priority" 6
          store.set_string hklm task_games_key "Scheduling Category" "High"
          store.set_string hklm task_games_key "SFIO Priority" "High"
          pure (
              result true
                "Configured MMCSS Games Profile: GPU Priority 8, Priority 6, High Scheduling Category.")

  abbrev pub mm_key : String
  mm_key = "SYSTEM\\CurrentControlSet\\Control\\Session Manager\\Memory Management"

  unfoldable pub optimize_memory_subsystem : Bool → State W OperationResult
  optimize_memory_subsystem is_high_ram = do
    admin ← store.is_running_as_admin
    if not admin then pure (result false "Administrator privileges required.") else do
      if is_high_ram
          then (do
            store.set_dword hklm mm_key "DisablePagingExecutive" 1
            store.set_dword hklm mm_key "LargeSystemCache" 0
            pure (
                result true
                  "Configured High-RAM Gaming Profile: Kernel locked in physical RAM (DisablePagingExecutive=1)."))
          else do
            store.set_dword hklm mm_key "DisablePagingExecutive" 0
            store.set_dword hklm mm_key "LargeSystemCache" 0
            pure (result true "Configured Budget-RAM Gaming Profile: Balanced paging executive.")

module _ {W : Type 0} (services : ServiceApi W) where
  -- SERVICE_STOP, SERVICE_CHANGE_CONFIG and SERVICE_QUERY_STATUS
  abbrev stop_access : ℕ
  stop_access = 0x26

  -- SERVICE_CHANGE_CONFIG
  abbrev config_access : ℕ
  config_access = 2

  unfoldable pub stop_service : Option ℕ → State W Unit
  stop_service none = pure tt
  stop_service (some service) = do
    services.control_service_stop service
    services.change_start_type service 4
    services.close_service_handle service

  unfoldable pub configure_service : Option ℕ → State W Unit
  configure_service none = pure tt
  configure_service (some service) = do
    services.change_start_type service 3
    services.close_service_handle service

  -- What both functions do with the service control manager, if it opens.
  unfoldable pub with_lfsvc : ℕ → (Option ℕ → State W Unit) → Option ℕ → State W Unit
  with_lfsvc access act none = pure tt
  with_lfsvc access act (some scm) = do
    service ← services.open_service scm "lfsvc" access
    act service
    services.close_service_handle scm

  abbrev lfsvc_key : String
  lfsvc_key = "SYSTEM\\CurrentControlSet\\Services\\lfsvc"

  unfoldable pub disable_location_services : RegistryStore W → State W OperationResult
  disable_location_services store = do
    admin ← store.is_running_as_admin
    if not admin
        then pure (result false "Administrator privileges required to control Location Services.")
        else do
          scm ← services.open_sc_manager
          with_lfsvc stop_access stop_service scm
          store.set_dword hklm lfsvc_key "Start" 4
          pure (
              result true
                "Windows Geolocation Service (lfsvc) DISABLED (Eliminates periodic 8s BSSID scan ping spikes).")

  unfoldable pub restore_location_services : RegistryStore W → State W OperationResult
  restore_location_services store = do
    admin ← store.is_running_as_admin
    if not admin then pure (result false "Administrator privileges required.") else do
      scm ← services.open_sc_manager
      with_lfsvc config_access configure_service scm
      store.set_dword hklm lfsvc_key "Start" 3
      pure (result true "Windows Geolocation Service (lfsvc) restored to Manual.")
