-- ===== src/Healer.antt =====
-- src/platform_healer.cpp: the repair of Steam's locks.
pub mod Steam
pub mod Zombies
pub mod Vdf
pub mod Cache
pub mod Repair
pub mod Active
pub mod Whole
use Prim.Native.String.{◌++◌}
use disping.Common.{
  ℕ, String, Bool, true, false, Option, none, some, OperationResult, result, fresh_result, ltb,
  if◌then◌else◌,
}
use disping.Common.State.{State, ◌>>=◌, pure}
use disping.Common.Text.{to_string}
use disping.Windows.System.{SystemApi}
use disping.Windows.Processes.{ProcessApi}
use disping.Windows.Healing.{HealApi, RegexLib}
use disping.Store.{RegistryStore}
use Steam.{
  is_empty, get_steam_path, clear_crash_locks, repair_active_process_registry,
  repair_steam_login_settings,
}
use Zombies.{terminate_hung_steam_zombies}
use Vdf.{repair_login_users_vdf}
use Cache.{clean_corrupted_html_cache}

-- What the steps have done.
pub record Healed : Type 0 where
  pub crash_cleared : Bool
  pub reg_repaired : Bool
  pub login_repaired : Bool
  pub vdf_repaired : Bool
  pub cache_cleaned : Bool
  pub zombies_killed : ℕ

abbrev pub line : Bool → String → String
line done text = if done then text else ""

unfoldable pub healed_details : Healed → String
healed_details h =
    line h.crash_cleared "Removed stale Steam .crash lock file.\n"
    ++ (line h.reg_repaired "Reset stale ActiveProcess PID in registry.\n"
        ++ (line h.login_repaired "Restored Steam AutoLogin & RememberPassword flags.\n"
            ++ (line h.vdf_repaired "Verified and healed loginusers.vdf credentials.\n"
                ++ (line h.cache_cleaned "Purged corrupted CEF crash state and shader cache.\n"
                    ++ (if ltb 0 h.zombies_killed
                        then "Terminated "
                          ++ (to_string h.zombies_killed ++ " orphaned Steam zombie process(es).\n")
                        else "")))))

abbrev pub healthy_message : String
healthy_message = "Steam & Game Launchers verified: All platform locks healthy and clean."

unfoldable pub healed_result : Healed → OperationResult
unfolding healed_details
healed_result h =
    if is_empty (healed_details h) then result true healthy_message else record fresh_result {
      success = true;
      message = "Steam & Game Launchers auto-healed and unlocked!";
      details = healed_details h;
    }

module _ {W : Type 0} (store : RegistryStore W) (procs : ProcessApi W) (heal : HealApi W)
    (regex : RegexLib) (api : SystemApi W) where
  unfoldable pub zombies_if : Bool → State W ℕ
  zombies_if terminate_zombies =
      if terminate_zombies then terminate_hung_steam_zombies procs heal store api else pure 0

  -- What follows RepairLoginUsersVdf; an exception of it is not caught.
  unfoldable pub heal_rest :
      Bool → Bool → Bool → Bool → Option Bool → State W (Option OperationResult)
  heal_rest terminate_zombies crash_cleared reg_repaired login_repaired none = pure none
  heal_rest terminate_zombies crash_cleared reg_repaired login_repaired (some vdf_repaired) = do
    cache_cleaned ← clean_corrupted_html_cache regex heal
    zombies_killed ← zombies_if terminate_zombies
    pure (
        some (
          healed_result record {
            crash_cleared = crash_cleared;
            reg_repaired = reg_repaired;
            login_repaired = login_repaired;
            vdf_repaired = vdf_repaired;
            cache_cleaned = cache_cleaned;
            zombies_killed = zombies_killed;
          }))

  -- `none` stands for an exception.
  unfoldable pub heal_steam_and_games : Bool → State W (Option OperationResult)
  heal_steam_and_games terminate_zombies = do
    s_path ← get_steam_path store
    crash_cleared ← clear_crash_locks store heal s_path
    reg_repaired ← repair_active_process_registry store procs heal
    login_repaired ← repair_steam_login_settings store
    vdf_repaired ← repair_login_users_vdf regex store heal s_path
    heal_rest terminate_zombies crash_cleared reg_repaired login_repaired vdf_repaired
