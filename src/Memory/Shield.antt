-- ===== src/Memory/Shield.antt =====
-- The processes that src/memory_optimizer.cpp opens.
use disping.Common.{ℕ, String, ◌≡◌, false, ◌==◌}
use disping.Common.State.{◌>>=◌}
use disping.Common.State.Keeps.{Keeps}
use disping.Common.Text.{codes, lower}
use disping.Windows.System.{Process, SystemApi}
use disping.Windows.Processes.{ProcessApi}
use disping.Windows.Snapshot.{Listed}
use disping.Vpn.{is_one_of, is_process_protected}
use disping.Memory.{gaming_protected, quota_access}

-- May the process be opened? Not one of the VPN guard's list, nor a game, nor a system process.
abbrev pub IsOpen : Process → Type 0
IsOpen pe =
    (is_process_protected pe.exe ≡ false)
    × (is_one_of (lower (codes pe.exe)) gaming_protected ≡ false)
    × ((pe.pid == 0) ≡ false)
    × ((pe.pid == 4) ≡ false)

-- The calls that a property of the world has to survive: all but opening a process, and opening one that a
-- snapshot lists and that may be opened.
pub record MemoryCalls {W : Type 0} (P : W → Type 0) (procs : ProcessApi W) (api : SystemApi W)
    : Type 0 where
  pub opens :
      (pe : Process)
      → Listed P api pe
      → IsOpen pe
      → Keeps P (procs.open_process (quota_access procs) pe.pid)
  pub closes : (h : ℕ) → Keeps P (procs.close_handle h)
  pub empties : (h : ℕ) → Keeps P (procs.empty_working_set h)
  pub tokens : Keeps P procs.open_process_token
  pub looks_up : (s : String) → Keeps P (procs.lookup_privilege_value s)
  pub adjusts : (t l : ℕ) → Keeps P (procs.adjust_token_privileges t l)
  pub status : Keeps P procs.global_memory_status
  pub purges : Keeps P procs.purge_standby_list
  pub snapshots : Keeps P api.snapshot
