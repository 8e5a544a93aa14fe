-- ===== src/Backup.antt =====
-- src/backup_manager.cpp: the backup file, the rollback script and the factory defaults.
pub mod Defaults
use Prim.Native.String.{◌++◌}
use disping.Common.{
  ℕ, String, Bool, true, false, not, Option, none, some, List, [], ◌∷◌, OperationResult, result,
  if◌then◌else◌,
}
use disping.Common.State.{State, ◌>>=◌, ◌>>◌, pure, count_each}
use disping.Common.Text.{to_string}
use disping.Windows.Registry.{hklm}
use disping.Windows.System.{SystemApi}
use disping.Windows.Services.{FileApi, TimerApi}
use disping.Store.{RegistryStore}
use disping.Network.{interfaces_key, profile_key}
use disping.Qos.{remove_gaming_qos_policies}
use disping.Latency.{new_optimizer, restore_timer_resolution}

abbrev pub restore_commands : List String
restore_commands =
    "netsh int tcp set global autotuninglevel=normal > nul 2>&1"
    ∷ "netsh int tcp set global congestionprovider=default > nul 2>&1"
    ∷ "netsh int tcp set global ecncapability=default > nul 2>&1"
    ∷ "netsh int tcp set global timestamps=allowed > nul 2>&1"
    ∷ "netsh int tcp set global rss=enabled > nul 2>&1"
    ∷ "netsh int tcp set global rsc=enabled > nul 2>&1"
    ∷ "netsh int tcp set heuristics enabled > nul 2>&1" ∷ []

-- The text of the rollback script.
abbrev rollback_script : String
rollback_script =
    "@echo off\n:: =====================================================\n:: DisPing Automatic Rollback & Restore Script\n:: Restores standard Windows network and system defaults\n:: =====================================================\n\n"
    ++ "net session >nul 2>&1\nif %errorlevel% neq 0 (\n    echo [!] Administrator privileges required. Please right-click and Run as Administrator.\n    pause\n    exit /b 1\n)\n\n"
    ++ "echo [*] Restoring Windows Network Throttling Index to 10...\nreg add \"HKLM\\SOFTWARE\\Microsoft\\Windows NT\\CurrentVersion\\Multimedia\\SystemProfile\" /v NetworkThrottlingIndex /t REG_DWORD /d 10 /f >nul\n"
    ++ "echo [*] Restoring Windows System Responsiveness to 20...\nreg add \"HKLM\\SOFTWARE\\Microsoft\\Windows NT\\CurrentVersion\\Multimedia\\SystemProfile\" /v SystemResponsiveness /t REG_DWORD /d 20 /f >nul\n\n"
    ++ "echo [*] Restoring Netsh TCP defaults...\nnetsh int tcp set global autotuninglevel=normal >nul\nnetsh int tcp set global congestionprovider=default >nul\nnetsh int tcp set global ecncapability=default >nul\nnetsh int tcp set global timestamps=allowed >nul\nnetsh int tcp set global rss=enabled >nul\nnetsh int tcp set global rsc=enabled >nul\nnetsh int tcp set heuristics enabled >nul\n\n"
    ++ "echo [*] Flushing DNS cache...\nipconfig /flushdns >nul\n\necho [OK] All settings successfully restored to Windows defaults!\npause\n"

-- What GetDword leaves in a variable with a default.
abbrev or_default : ℕ → Option ℕ → ℕ
or_default d none = d
or_default d (some n) = n

module _ {W : Type 0} (files : FileApi W) where
  unfoldable pub backup_exists : String → State W Bool
  backup_exists backup_path = files.can_open backup_path

  write_script : String → Option ℕ → State W OperationResult
  write_script script_path none =
      pure (result false ("Failed to write rollback script: " ++ script_path))
  write_script script_path (some out) = do
    files.write out rollback_script
    files.close out
    pure (result true ("Generated standalone rollback script: " ++ script_path))

  unfoldable pub generate_rollback_script : String → State W OperationResult
  unfolding write_script
  generate_rollback_script script_path = do
    out ← files.open_output script_path
    write_script script_path out

  abbrev backup_entry : String → ℕ → String
  backup_entry name value =
      "    {\"key\": \""
      ++ profile_key
      ++ "\", \"name\": \""
      ++ name
      ++ "\", \"value\": "
      ++ to_string value
      ++ "}"

  -- What follows once the file is open; `stamp` stands for __DATE__, a space and __TIME__.
  write_backup : RegistryStore W → String → String → Option ℕ → State W OperationResult
  write_backup store stamp backup_path none =
      pure (result false ("Failed to create backup file: " ++ backup_path))
  write_backup store stamp backup_path (some out) = do
    files.write out ("{\n  \"timestamp\": \"" ++ stamp ++ "\",\n  \"entries\": [\n")
    throttle ← store.get_dword hklm profile_key "NetworkThrottlingIndex"
    resp ← store.get_dword hklm profile_key "SystemResponsiveness"
    files.write out (
        backup_entry "NetworkThrottlingIndex" (or_default 10 throttle)
        ++ ",\n"
        ++ backup_entry "SystemResponsiveness" (or_default 20 resp)
        ++ "\n  ]\n}\n")
    files.close out
    generate_rollback_script "disping_rollback.bat"
    pure (
        result true
          ("Created system backup in [" ++ backup_path ++ "] and [disping_rollback.bat]."))

  unfoldable pub create_backup : RegistryStore W → String → String → State W OperationResult
  unfolding write_backup
  create_backup store stamp backup_path = do
    out ← files.open_output backup_path
    write_backup store stamp backup_path out

module _ {W : Type 0} (store : RegistryStore W) (api : SystemApi W) (timer : TimerApi W)
    (show_ms : ℕ → String) where
  -- The loop over the interfaces: what DeleteValue returns is ignored.
  unfoldable pub reset_interface : String → State W Bool
  reset_interface guid = do
    let sub_key = interfaces_key ++ "\\" ++ guid
    store.delete_value hklm sub_key "TcpAckFrequency"
    store.delete_value hklm sub_key "TCPNoDelay"
    store.delete_value hklm sub_key "TcpDelAckTicks"
    pure true

  unfoldable pub run_restore_commands : List String → State W Unit
  run_restore_commands [] = pure tt
  run_restore_commands (command ∷ rest) = do api.system command; run_restore_commands rest

  -- The steps 2 to 5.
  unfoldable pub reset_stack : State W OperationResult
  reset_stack = do
    guids ← store.enumerate_sub_keys hklm interfaces_key
    count_each reset_interface guids
    remove_gaming_qos_policies store api
    run_restore_commands restore_commands
    restore_timer_resolution timer show_ms new_optimizer
    pure (result true "Factory Windows defaults restored for TCP/IP, Throttling, MMCSS, and QoS.")

  unfoldable pub restore_factory_defaults : State W OperationResult
  restore_factory_defaults = do
    admin ← store.is_running_as_admin
    if not admin
        then pure (result false "Administrator privileges required to restore defaults.")
        else do
          store.set_dword hklm profile_key "NetworkThrottlingIndex" 10
          store.set_dword hklm profile_key "SystemResponsiveness" 20
          reset_stack
