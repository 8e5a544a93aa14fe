-- ===== src/Healer/Whole.antt =====
-- Properties of the world that HealSteamAndGames of src/platform_healer.cpp preserves.
use disping.Common.{ℕ, String, Bool, true, false, Option, none, some, List, [], ◌∷◌}
use disping.Common.State.Keeps.{Keeps, keeps_rules, bind-Keeps}
use disping.Windows.Registry.{Root, hkcu}
use disping.Windows.System.{SystemApi}
use disping.Windows.Processes.{ProcessApi}
use disping.Windows.Healing.{HealApi, RegexLib}
use disping.Store.{RegistryStore}
use disping.Healer.Steam.{
  steam_key, installed_path, get_steam_path, steam_path_or, repair_steam_login_settings,
  clear_crash_in, clear_crash_locks, repair_active_process_registry,
}
use disping.Healer.Zombies.{terminate_hung_steam_zombies}
use disping.Healer.Vdf.{
  write_opened, write_healed, repair_content, repair_vdf_in, repair_login_users_vdf,
}
use disping.Healer.Cache.{
  write_state, remove_caches, needs_clean, clean_if, clean_read, clean_state, clean_html_cache,
  clean_corrupted_html_cache,
}
use disping.Healer.{zombies_if, heal_rest, heal_steam_and_games}

-- The calls that a property of the world has to survive.
pub record HealCalls {W : Type 0} (P : W → Type 0) (store : RegistryStore W) (heal : HealApi W)
    : Type 0 where
  pub texts : (r : Root) (k n : String) → Keeps P (store.get_string r k n)
  pub remembers : Keeps P (store.set_dword hkcu steam_key "RememberPassword" 1)
  pub retries : Keeps P (store.set_dword hkcu steam_key "AlreadyRetriedOfflineMode" 0)
  pub modes : Keeps P (store.set_dword hkcu steam_key "StartupModeTmp" 0)
  pub valid_modes : Keeps P (store.set_dword hkcu steam_key "StartupModeTmpIsValid" 0)
  pub attributes : (file : String) → Keeps P (heal.get_file_attributes file)
  pub deletes : (file : String) → Keeps P (heal.delete_file file)
  pub variables : (name : String) (size : ℕ) → Keeps P (heal.get_environment_variable name size)
  pub exists : (file : String) → Keeps P (heal.exists file)
  pub removes : (file : String) → Keeps P (heal.remove_all file)
  pub reads : (file : String) → Keeps P (heal.read_file file)
  pub truncates : (file : String) → Keeps P (heal.open_truncated file)
  pub writes : (out : ℕ) (bytes : List ℕ) → Keeps P (heal.write_bytes out bytes)
  pub closes : (out : ℕ) → Keeps P (heal.close out)

module _ {W : Type 0} {P : W → Type 0} (store : RegistryStore W) (heal : HealApi W)
    (calls : HealCalls P store heal) where
  open calls use {
    texts, remembers, retries, modes, valid_modes, attributes, deletes, variables, exists, removes,
    reads, truncates, writes, closes,
  }

  installed_path-Keeps : (path : Option String) → Keeps P (installed_path store path)
  unfolding installed_path
  installed_path-Keeps none = record {
    at = λ w h. (texts _ "SOFTWARE\\WOW6432Node\\Valve\\Steam" "InstallPath").at w h;
  }
  installed_path-Keeps (some p) = search keeps_rules

  get_steam_path-Keeps : Keeps P (get_steam_path store)
  unfolding get_steam_path
  get_steam_path-Keeps = search (keeps_rules, texts, installed_path-Keeps)

  steam_path_or-Keeps : (custom : String) → Keeps P (steam_path_or store custom)
  unfolding steam_path_or
  steam_path_or-Keeps custom = search (keeps_rules, get_steam_path-Keeps)

  login-Keeps : Keeps P (repair_steam_login_settings store)
  unfolding repair_steam_login_settings
  login-Keeps = search (keeps_rules, remembers, retries, modes, valid_modes) depth 12

  clear_crash_in-Keeps : (path : String) → Keeps P (clear_crash_in store heal path)
  unfolding clear_crash_in
  clear_crash_in-Keeps path = search (keeps_rules, attributes, deletes) depth 12

  clear_crash_locks-Keeps : (path : String) → Keeps P (clear_crash_locks store heal path)
  unfolding clear_crash_locks
  clear_crash_locks-Keeps path = search (keeps_rules, steam_path_or-Keeps, clear_crash_in-Keeps)

  module _ (regex : RegexLib) where
    write_opened-Keeps :
        (content : List ℕ) (out : Option ℕ) → Keeps P (write_opened regex store heal content out)
    unfolding write_opened
    write_opened-Keeps content none = search keeps_rules
    write_opened-Keeps content (some out) = search (keeps_rules, writes, closes)

    write_healed-Keeps :
        (path : String) (content : Option (List ℕ))
        → Keeps P (write_healed regex store heal path content)
    unfolding write_healed
    write_healed-Keeps path none = search keeps_rules
    write_healed-Keeps path (some content) = search (keeps_rules, truncates, write_opened-Keeps)

    repair_content-Keeps :
        (path : String) (content : Option (List ℕ))
        → Keeps P (repair_content regex store heal path content)
    unfolding repair_content
    repair_content-Keeps path none = search keeps_rules
    repair_content-Keeps path (some []) = search keeps_rules
    repair_content-Keeps path (some (c ∷ content)) = search (keeps_rules, texts, write_healed-Keeps)

    repair_vdf_in-Keeps : (path : String) → Keeps P (repair_vdf_in regex store heal path)
    unfolding repair_vdf_in
    repair_vdf_in-Keeps path = search (keeps_rules, reads, repair_content-Keeps) depth 12

    vdf-Keeps : (path : String) → Keeps P (repair_login_users_vdf regex store heal path)
    unfolding repair_login_users_vdf
    vdf-Keeps path = search (keeps_rules, steam_path_or-Keeps, repair_vdf_in-Keeps)

    write_state-Keeps :
        (content : List ℕ) (out : Option ℕ) → Keeps P (write_state regex heal content out)
    unfolding write_state
    write_state-Keeps content none = search keeps_rules
    write_state-Keeps content (some out) = search (keeps_rules, writes, closes)

    remove_caches-Keeps : (path : String) → Keeps P (remove_caches regex heal path)
    unfolding remove_caches
    remove_caches-Keeps path = search (keeps_rules, removes) depth 12

    clean_if-Keeps :
        (path : String) (content : List ℕ) (needed : Option Bool)
        → Keeps P (clean_if regex heal path content needed)
    unfolding clean_if
    clean_if-Keeps path content none = search keeps_rules
    clean_if-Keeps path content (some false) = search keeps_rules
    clean_if-Keeps path content (some true) =
        search (keeps_rules, truncates, write_state-Keeps, remove_caches-Keeps)

    clean_read-Keeps :
        (path : String) (content : Option (List ℕ)) → Keeps P (clean_read regex heal path content)
    unfolding clean_read
    clean_read-Keeps path none = search keeps_rules
    clean_read-Keeps path (some content) = clean_if-Keeps path content (needs_clean regex content)

    clean_state-Keeps : (path : String) → Keeps P (clean_state regex heal path)
    unfolding clean_state
    clean_state-Keeps path = search (keeps_rules, exists, reads, clean_read-Keeps) depth 12

    clean_html_cache-Keeps : (path : String) → Keeps P (clean_html_cache regex heal path)
    unfolding clean_html_cache
    clean_html_cache-Keeps path = search (keeps_rules, exists, clean_state-Keeps) depth 12

    cache-Keeps : Keeps P (clean_corrupted_html_cache regex heal)
    unfolding clean_corrupted_html_cache
    cache-Keeps = search (keeps_rules, variables, clean_html_cache-Keeps) depth 12

    module _ (procs : ProcessApi W) (api : SystemApi W)
        (active : Keeps P (repair_active_process_registry store procs heal))
        (zombies : Keeps P (terminate_hung_steam_zombies procs heal store api)) where
      zombies_if-Keeps : (on : Bool) → Keeps P (zombies_if store procs heal regex api on)
      unfolding zombies_if
      zombies_if-Keeps true = record { at = λ w h. zombies.at w h }
      zombies_if-Keeps false = record { at = λ w h. h }

      heal_rest-Keeps :
          (on a b c : Bool) (vdf : Option Bool)
          → Keeps P (heal_rest store procs heal regex api on a b c vdf)
      unfolding heal_rest
      heal_rest-Keeps on a b c none = search keeps_rules
      heal_rest-Keeps on a b c (some vdf) = record {
        at = λ w h.
            (zombies_if-Keeps on).at (clean_corrupted_html_cache regex heal w).1
              (cache-Keeps.at w h);
      }

      -- Whatever property of the world survives the calls on files, the questions, the four writes of the login
      -- settings, RepairActiveProcessRegistry and TerminateHungSteamZombies, HealSteamAndGames keeps.
      pub heal_steam_and_games-Keeps :
          (on : Bool) → Keeps P (heal_steam_and_games store procs heal regex api on)
      unfolding heal_steam_and_games
      heal_steam_and_games-Keeps on = bind-Keeps get_steam_path-Keeps λ path.
          bind-Keeps (clear_crash_locks-Keeps path) λ a.
            bind-Keeps active λ b.
              bind-Keeps login-Keeps λ c. bind-Keeps (vdf-Keeps path) (heal_rest-Keeps on a b c)
