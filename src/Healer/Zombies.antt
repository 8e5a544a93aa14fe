-- ===== src/Healer/Zombies.antt =====
-- TerminateHungSteamZombies of src/platform_healer.cpp.
pub mod Shield
use disping.Common.{
  ℕ, ◌+◌, ◌-◌, String, Bool, true, false, not, ◌&&◌, ◌||◌, Option, none, some, List, [], ◌∷◌, ltb,
  ◌==◌, if◌then◌else◌,
}
use disping.Common.State.{State, ◌>>=◌, ◌>>◌, pure, count_each}
use disping.Common.Text.{codes, lower, same}
use disping.Windows.Registry.{hkcu}
use disping.Windows.System.{Process, SystemApi}
use disping.Windows.Processes.{ProcessApi}
use disping.Windows.Healing.{HealApi}
use disping.Store.{RegistryStore}
use disping.Healer.Steam.{active_process_key, or_zero, query_limited}

-- 60 seconds in units of 100 ns.
abbrev pub hung_age : ℕ
hung_age = 600000000

-- PROCESS_TERMINATE
abbrev terminate_access : ℕ
terminate_access = 1

unfoldable pub is_steam : String → Bool
is_steam exe =
    same (lower (codes exe)) (codes "steam.exe")
    || same (lower (codes exe)) (codes "steamwebhelper.exe")

-- The guard on the age, with `nowU.QuadPart > createU.QuadPart` before the subtraction.
unfoldable pub is_hung : ℕ → ℕ → Option ℕ → Bool
is_hung active_pid now none = false
is_hung active_pid now (some create) =
    ltb create now && (ltb hung_age (now - create) && active_pid == 0)

module _ {W : Type 0} (procs : ProcessApi W) (heal : HealApi W) where
  unfoldable pub check_age : ℕ → ℕ → Option ℕ → State W Bool
  check_age active_pid now none = pure false
  check_age active_pid now (some proc) = do
    create ← heal.get_process_times proc
    procs.close_handle proc
    pure (is_hung active_pid now create)

  -- Is the process of the snapshot added to `pidsToKill`?
  unfoldable pub is_to_kill : ℕ → ℕ → Process → State W Bool
  is_to_kill active_pid now pe =
      if is_steam pe.exe
      then (if not (active_pid == 0) && pe.pid == active_pid
          then pure false
          else do proc ← procs.open_process query_limited pe.pid; check_age active_pid now proc)
      else pure false

  unfoldable pub pids_to_kill : ℕ → ℕ → List Process → State W (List ℕ)
  pids_to_kill active_pid now [] = pure []
  pids_to_kill active_pid now (pe ∷ list) = do
    hung ← is_to_kill active_pid now pe
    rest ← pids_to_kill active_pid now list
    pure (if hung then pe.pid ∷ rest else rest)

  unfoldable pub end_process : Option ℕ → State W Bool
  end_process none = pure false
  end_process (some proc) = do heal.terminate_process proc 0; procs.close_handle proc; pure true

  unfoldable pub kill : ℕ → State W Bool
  kill pid = do proc ← procs.open_process terminate_access pid; end_process proc

  unfoldable pub terminate_listed : ℕ → Option (List Process) → State W ℕ
  terminate_listed active_pid none = pure 0
  terminate_listed active_pid (some list) = do
    now ← heal.get_system_time_as_file_time
    pids ← pids_to_kill active_pid now list
    count_each kill pids

  unfoldable pub terminate_hung_steam_zombies : RegistryStore W → SystemApi W → State W ℕ
  terminate_hung_steam_zombies store api = do
    active_pid ← store.get_dword hkcu active_process_key "pid"
    list ← api.snapshot
    terminate_listed (or_zero active_pid) list
