-- ===== src/Healer/Steam.antt =====
-- GetSteamPath, ClearCrashLocks, RepairActiveProcessRegistry and RepairSteamLoginSettings of
-- src/platform_healer.cpp.
use Prim.Native.Char.{code}
use Prim.Native.String.{◌++◌}
use disping.Common.{
  ℕ, String, Bool, true, false, not, ◌&&◌, Option, none, some, ◌==◌, if◌then◌else◌,
}
use disping.Common.State.{State, ◌>>=◌, ◌>>◌, pure}
use disping.Common.Text.{codes, lower, contains}
use disping.Windows.Registry.{hklm, hkcu}
use disping.Windows.Processes.{ProcessApi}
use disping.Windows.Healing.{HealApi}
use disping.Store.{RegistryStore}

-- `s.empty()`.
abbrev pub is_empty : String → Bool
is_empty String.[] = true
is_empty (String.◌∷◌ c s) = false

-- `std::replace(path.begin(), path.end(), '/', '\\')`.
unfoldable pub backslashes : String → String
backslashes String.[] = String.[]
backslashes (String.◌∷◌ c s) = String.◌∷◌ (if code c == b'/' then "\\" else c) (backslashes s)

abbrev pub steam_key : String
steam_key = "Software\\Valve\\Steam"

abbrev pub active_process_key : String
active_process_key = "Software\\Valve\\Steam\\ActiveProcess"

-- What GetString leaves in a text that was empty.
abbrev pub or_empty : Option String → String
or_empty none = ""
or_empty (some s) = s

-- What GetDword leaves in a variable that was 0.
abbrev pub or_zero : Option ℕ → ℕ
or_zero none = 0
or_zero (some n) = n

-- PROCESS_QUERY_LIMITED_INFORMATION
abbrev pub query_limited : ℕ
query_limited = 0x1000

module _ {W : Type 0} (store : RegistryStore W) where
  unfoldable pub installed_path : Option String → State W String
  installed_path (some path) = pure (backslashes path)
  installed_path none = do
    path ← store.get_string hklm "SOFTWARE\\WOW6432Node\\Valve\\Steam" "InstallPath"
    pure (elim path [ some p ↦ p | none ↦ "C:\\Program Files (x86)\\Steam" ])

  unfoldable pub get_steam_path : State W String
  get_steam_path = do path ← store.get_string hkcu steam_key "SteamPath"; installed_path path

  unfoldable pub steam_path_or : String → State W String
  steam_path_or custom = if is_empty custom then get_steam_path else pure custom

  unfoldable pub repair_steam_login_settings : State W Bool
  repair_steam_login_settings = do
    b1 ← store.set_dword hkcu steam_key "RememberPassword" 1
    b2 ← store.set_dword hkcu steam_key "AlreadyRetriedOfflineMode" 0
    b3 ← store.set_dword hkcu steam_key "StartupModeTmp" 0
    b4 ← store.set_dword hkcu steam_key "StartupModeTmpIsValid" 0
    pure (b1 && b2 && b3 && b4)

module _ {W : Type 0} (store : RegistryStore W) (heal : HealApi W) where
  abbrev invalid_file_attributes : ℕ
  invalid_file_attributes = 0xffff_ffff

  unfoldable pub clear_crash_in : String → State W Bool
  clear_crash_in s_path = if is_empty s_path then pure false else do
    let crash_file = s_path ++ "\\.crash"
    attr ← heal.get_file_attributes crash_file
    if attr == invalid_file_attributes
        then pure false
        else do heal.delete_file crash_file; pure true

  unfoldable pub clear_crash_locks : String → State W Bool
  clear_crash_locks custom = do s_path ← steam_path_or store custom; clear_crash_in s_path

abbrev still_active : ℕ
still_active = 259

-- Is the exit code known, and another than STILL_ACTIVE?
unfoldable pub has_exited : Option ℕ → Bool
has_exited none = false
has_exited (some exit_code) = not (exit_code == still_active)

-- A process with no image name, or with another than Steam's.
unfoldable pub is_foreign : Option String → Bool
is_foreign none = true
is_foreign (some exe_path) = not (contains (codes "steam.exe") (lower (codes exe_path)))

module _ {W : Type 0} (procs : ProcessApi W) (heal : HealApi W) where
  -- `shouldReset`, for the handle of the process that the registry names.
  unfoldable pub should_reset : Option ℕ → State W Bool
  should_reset none = pure true
  should_reset (some proc) = do
    exit_code ← heal.get_exit_code_process proc
    if has_exited exit_code then (do procs.close_handle proc; pure true) else do
      exe_path ← heal.query_full_process_image_name proc
      procs.close_handle proc
      pure (is_foreign exe_path)

module _ {W : Type 0} (store : RegistryStore W) where
  unfoldable pub reset_if : Bool → State W Bool
  reset_if stale =
      if stale then (do store.set_dword hkcu active_process_key "pid" 0; pure true) else pure false

module _ {W : Type 0} (store : RegistryStore W) (procs : ProcessApi W) (heal : HealApi W) where
  unfoldable pub repair_pid : Option ℕ → State W Bool
  repair_pid none = pure false
  repair_pid (some active_pid) = if active_pid == 0 then pure false else do
    proc ← procs.open_process query_limited active_pid
    stale ← should_reset procs heal proc
    reset_if store stale

  unfoldable pub repair_active_process_registry : State W Bool
  repair_active_process_registry = do
    active_pid ← store.get_dword hkcu active_process_key "pid"
    repair_pid active_pid
