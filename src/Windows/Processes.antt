-- ===== src/Windows/Processes.antt =====
-- Processes, their memory and privileges: kernel32, psapi, advapi32 and ntdll.
use disping.Common.{ℕ, String, Bool, Option}
use disping.Common.State.{State}

pub record ProcessApi (W : Type 0) : Type 0 where
  -- handle for an access mask and a process id, `none` for NULL
  pub open_process : ℕ → ℕ → State W (Option ℕ)
  pub close_handle : ℕ → State W Unit
  pub current_process : ℕ
  pub empty_working_set : ℕ → State W Bool
  pub set_priority_class : ℕ → ℕ → State W Bool
  pub get_priority_class : ℕ → State W ℕ
  pub set_process_affinity_mask : ℕ → ℕ → State W Bool
  pub get_process_affinity_mask : ℕ → State W ℕ
  -- OpenProcessToken on the current process, LookupPrivilegeValue, AdjustTokenPrivileges (its result and
  -- GetLastError)
  pub open_process_token : State W (Option ℕ)
  pub lookup_privilege_value : String → State W (Option ℕ)
  pub adjust_token_privileges : ℕ → ℕ → State W (Bool × ℕ)
  -- GlobalMemoryStatusEx: bytes in total, bytes free, load in percent
  pub global_memory_status : State W (Option (ℕ × ℕ × ℕ))
  -- is NtSetSystemInformation there, and is its status for MemoryPurgeStandbyList at least 0?
  pub has_nt_set_system_information : Bool
  pub purge_standby_list : State W Bool
