-- ===== src/Memory.antt =====
-- src/memory_optimizer.cpp: the standby list and the working sets.
pub mod Shield
use Prim.Native.String.{◌++◌}
use disping.Common.{
  ℕ, ◌+◌, ◌-◌, ◌*◌, ◌/◌, String, Bool, true, false, not, ◌&&◌, ◌||◌, Option, none, some, List, [],
  ◌∷◌, OperationResult, fresh_result, result, ◌==◌, if◌then◌else◌,
}
use disping.Common.State.{State, ◌>>=◌, ◌>>◌, pure, count_each}
use disping.Common.Text.{codes, lower, to_string}
use disping.Windows.System.{Process, SystemApi}
use disping.Windows.Processes.{ProcessApi}
use disping.Vpn.{is_one_of, protected_processes}

abbrev pub gaming_protected : List String
gaming_protected =
    "steam.exe" ∷ "steamwebhelper.exe" ∷ "steamservice.exe" ∷ "gameoverlayui.exe" ∷ "cs2.exe"
    ∷ "csgo.exe" ∷ "valorant.exe" ∷ "dota2.exe" ∷ "r5apex.exe" ∷ "discord.exe"
    ∷ "epicgameslauncher.exe" ∷ "riotclientservices.exe" ∷ "nvcontainer.exe" ∷ "amdrsserv.exe"
    ∷ "amdfendrs.exe" ∷ "dwmp.exe" ∷ "dwm.exe" ∷ []

-- The `continue`s of the loop; IsProcessProtected lowers the name once more.
unfoldable pub is_skipped : Process → Bool
is_skipped pe =
    let lower_exe = lower (codes pe.exe) in
    pe.pid == 0
    || pe.pid == 4
    || is_one_of (lower lower_exe) protected_processes
    || is_one_of lower_exe gaming_protected

module _ {W : Type 0} (procs : ProcessApi W) where
  -- PROCESS_SET_QUOTA and PROCESS_QUERY_INFORMATION
  abbrev pub quota_access : ℕ
  quota_access = 0x500

  privilege_of : ℕ → Option ℕ → State W Bool
  privilege_of token none = do procs.close_handle token; pure false
  privilege_of token (some luid) = do
    (ok, error) ← procs.adjust_token_privileges token luid
    procs.close_handle token
    pure (ok && error == 0)

  with_token : String → Option ℕ → State W Bool
  unfolding privilege_of
  with_token privilege_name none = pure false
  with_token privilege_name (some token) = do
    luid ← procs.lookup_privilege_value privilege_name
    privilege_of token luid

  unfoldable pub enable_privilege : String → State W Bool
  unfolding with_token
  enable_privilege privilege_name = do
    token ← procs.open_process_token
    with_token privilege_name token

  -- total and free memory in MB, load
  abbrev pub megabytes : Option (ℕ × ℕ × ℕ) → ℕ × ℕ × ℕ
  megabytes none = (0, 0, 0)
  megabytes (some (total, free, load)) = (total / (1024 * 1024), free / (1024 * 1024), load)

  unfoldable pub get_memory_stats : State W (ℕ × ℕ × ℕ)
  get_memory_stats = do status ← procs.global_memory_status; pure (megabytes status)

  -- The call of NtSetSystemInformation, if ntdll has it.
  unfoldable pub purge_list : State W OperationResult
  purge_list =
      if not procs.has_nt_set_system_information
      then pure (result false "NtSetSystemInformation API not found in ntdll.")
      else do
        ok ← procs.purge_standby_list
        pure (
            if ok
            then result true "Purged Windows Standby Memory List (eliminated pagefile stutter)."
            else result false "Failed to purge standby list (requires Administrator privileges).")

  unfoldable pub purge_standby : State W OperationResult
  purge_standby = do
    enable_privilege "SeProfileSingleProcessPrivilege"
    enable_privilege "SeIncreaseQuotaPrivilege"
    purge_list

  unfoldable pub empty_opened : Option ℕ → State W Bool
  empty_opened none = pure false
  empty_opened (some handle) = do
    ok ← procs.empty_working_set handle
    procs.close_handle handle
    pure ok

  -- One process of the snapshot.
  unfoldable pub empty_process : Process → State W Bool
  empty_process pe =
      if is_skipped pe
      then pure false
      else do handle ← procs.open_process quota_access pe.pid; empty_opened handle

  unfoldable pub empty_listed : Option (List Process) → State W OperationResult
  empty_listed none = do
    procs.empty_working_set procs.current_process
    pure (result true "Emptied current process working set.")
  empty_listed (some list) = do
    cleared_count ← count_each empty_process list
    pure (
        result true
          ("Emptied working sets across " ++ to_string cleared_count ++ " running processes."))

  unfoldable pub empty_all_working_sets : SystemApi W → State W OperationResult
  empty_all_working_sets api = do
    enable_privilege "SeIncreaseQuotaPrivilege"
    list ← api.snapshot
    empty_listed list

  unfoldable pub clean_gaming_memory : SystemApi W → State W OperationResult
  clean_gaming_memory api = do
    (before_total, before_avail, before_load) ← get_memory_stats
    r1 ← purge_standby
    r2 ← empty_all_working_sets api
    (after_total, after_avail, after_load) ← get_memory_stats
    pure (record fresh_result {
      success = r1.success || r2.success;
      message =
          "Memory Optimization Complete: Freed ~"
          ++ to_string (after_avail - before_avail)
          ++ " MB of RAM (Memory Load: "
          ++ to_string before_load
          ++ "% -> "
          ++ to_string after_load
          ++ "%).";
      details = r1.message ++ "\n" ++ r2.message;
    })
