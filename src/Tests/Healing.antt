-- ===== src/Tests/Healing.antt =====
-- The theorems about the platform healer and the running games at work on the registry in memory.
use disping.Common.{ℕ, String, ◌≡◌, refl, ◌⊎◌, true, false, none, some, List, [], map}
use disping.Common.State.Keeps.{Keeps}
use disping.Common.Text.{codes, contains}
use disping.Windows.Healing.{HealApi, RegexLib}
use disping.Healer.{heal_steam_and_games}
use disping.Healer.Steam.{steam_key, active_process_key, repair_active_process_registry}
use disping.Healer.Zombies.{kill, end_process, terminate_hung_steam_zombies}
use disping.Healer.Vdf.{
  account_pattern, heal_content, heal_at, heal_between, heal_block, heal_most_recent, heal_remember,
  heal_offline, splice, insert_before_last, find_char, first_at, rfind_char, last_among,
}
use disping.Healer.Zombies.Shield as ZombieShield
use disping.Healer.Active
use disping.Healer.Repair
use disping.Healer.Whole
use disping.Process.Games.{find_active_games, auto_boost_all_active_games}
use disping.Process.Games.Shield as GamesShield
use disping.Store.Keeps.{Holds, get_string-Holds, get_dword-Holds, set_dword-Holds}
use disping.Windows.Registry.{alias, hkcu}
use disping.Tests.Machine.{Machine}
use disping.Windows.System.{Process, SystemApi}
use disping.Common.{◌∷◌}
use disping.Common.Text.{same, lower}
use disping.Tests.Components.{two_processes, two_adapters, memory_store, steady}
use disping.Tests.Optimizers.{some_place, calm, all_threads}

-- A system with no file but the list of accounts.
abbrev one_account : String
one_account = "{ \"AccountName\" \"gamer\" } { }"

abbrev pub accounts : HealApi Machine
accounts = record {
  get_file_attributes = λ file w. (0xffff_ffff, w);
  delete_file = λ file w. (true, w);
  get_exit_code_process = λ h w. (some 259, w);
  query_full_process_image_name = λ h w. (some "C:\\Steam\\Steam.exe", w);
  get_process_times = λ h w. (some 1000, w);
  terminate_process = λ h code w. (true, w);
  get_system_time_as_file_time = λ w. (700000000, w);
  get_environment_variable = λ name size w. ((0, ""), w);
  join = λ a b. a;
  exists = λ file w. (false, w);
  remove_all = λ file w. (tt, w);
  read_file = λ file w. (some (codes one_account), w);
  open_truncated = λ file w. (some 4, w);
  write_bytes = λ out bytes w. (tt, w);
  close = λ out w. (tt, w);
}

-- The only pattern that is found is found at byte 2, and nothing is replaced.
abbrev pub at_two : RegexLib
at_two = record {
  accepts = λ pattern. true;
  search_first = λ pattern icase text. some (2, []);
  regex_replace = λ pattern first text by. text;
}

abbrev pub Kept : Machine → Type 0
Kept = Holds memory_store some_place none

zombie_calls : ZombieShield.ZombieCalls Kept calm accounts memory_store steady
unfolding kill end_process
zombie_calls = record {
  asks = get_dword-Holds memory_store some_place none hkcu active_process_key "pid";
  snapshots = record { at = λ w h. h };
  clocks = record { at = λ w h. h };
  opens = λ pid. record { at = λ w h. h };
  times = λ c. record { at = λ w h. h };
  closes = λ c. record { at = λ w h. h };
  kills = λ pe hung. record { at = λ v h. h };
}

terminate_hung_steam_zombies-Keeps_example :
    Keeps Kept (terminate_hung_steam_zombies calm accounts memory_store steady)
terminate_hung_steam_zombies-Keeps_example =
    ZombieShield.terminate_hung_steam_zombies-Keeps calm accounts memory_store steady zombie_calls

active_calls : Active.ActiveCalls Kept memory_store calm accounts
unfolding alias
active_calls = record {
  asks = get_dword-Holds memory_store some_place none hkcu active_process_key "pid";
  opens = λ pid. record { at = λ w h. h };
  exits = λ c. record { at = λ w h. h };
  images = λ c. record { at = λ w h. h };
  closes = λ c. record { at = λ w h. h };
  resets = λ w pid there busy stale.
      set_dword-Holds memory_store some_place none hkcu active_process_key "pid" 0 refl;
}

repair_active_process_registry-Keeps_example :
    Keeps Kept (repair_active_process_registry memory_store calm accounts)
repair_active_process_registry-Keeps_example =
    Active.repair_active_process_registry-Keeps memory_store calm accounts active_calls

heal_content-BlockOnly_example :
    let content = codes one_account in
    let new =
      codes
        "{ \"AccountName\" \"gamer\" \t\t\"MostRecent\"\t\t\"1\"\n\t\t\t\"RememberPassword\"\t\t\"1\"\n\t} { }" in
    (new ≡ content)
    ⊎ (pos : ℕ) × (group : List ℕ) × (at_two.search_first (account_pattern "gamer") true content
        ≡ some (pos, group))
      × Repair.BlockOnly pos content new
unfolding heal_content heal_at heal_between heal_block heal_most_recent heal_remember heal_offline
    splice insert_before_last find_char first_at rfind_char last_among contains
heal_content-BlockOnly_example =
    Repair.heal_content-BlockOnly at_two "gamer" (codes one_account) _ refl refl

-- A game between two other processes.
abbrev game : Process
game = record { pid = 77; exe = "CS2.EXE" }

abbrev with_game : SystemApi Machine
with_game = record steady {
  snapshot = λ w. (some (record { pid = 5; exe = "notes.exe" } ∷ (game ∷ two_processes)), w);
}

find_active_games-known_example :
    map GamesShield.identity (find_active_games calm with_game two_adapters).0 ≡ game ∷ []
unfolding same lower
find_active_games-known_example = GamesShield.find_active_games-known calm with_game two_adapters

heal_Keeps : Keeps Kept (heal_steam_and_games memory_store calm accounts at_two steady false)
unfolding alias
heal_Keeps =
    Whole.heal_steam_and_games-Keeps memory_store accounts
      record {
        texts = λ r k n. get_string-Holds memory_store some_place none r k n;
        remembers =
            set_dword-Holds memory_store some_place none hkcu steam_key "RememberPassword" 1 refl;
        retries =
            set_dword-Holds memory_store some_place none hkcu steam_key "AlreadyRetriedOfflineMode"
              0 refl;
        modes = set_dword-Holds memory_store some_place none hkcu steam_key "StartupModeTmp" 0 refl;
        valid_modes =
            set_dword-Holds memory_store some_place none hkcu steam_key "StartupModeTmpIsValid" 0
              refl;
        attributes = λ file. record { at = λ w h. h };
        deletes = λ file. record { at = λ w h. h };
        variables = λ name size. record { at = λ w h. h };
        exists = λ file. record { at = λ w h. h };
        removes = λ file. record { at = λ w h. h };
        reads = λ file. record { at = λ w h. h };
        truncates = λ file. record { at = λ w h. h };
        writes = λ out bytes. record { at = λ w h. h };
        closes = λ out. record { at = λ w h. h };
      }
      at_two calm steady
      (Active.repair_active_process_registry-Keeps memory_store calm accounts active_calls)
      (ZombieShield.terminate_hung_steam_zombies-Keeps calm accounts memory_store steady
        zombie_calls)
      false

auto_boost_all_active_games-Keeps_example :
    Keeps Kept (auto_boost_all_active_games calm all_threads memory_store accounts at_two steady)
auto_boost_all_active_games-Keeps_example =
    GamesShield.auto_boost_all_active_games-Keeps calm all_threads steady
      record {
        opens = λ pe seen real. record { at = λ w h. h };
        closes = λ c. record { at = λ w h. h };
        priorities = λ c class. record { at = λ w h. h };
        affinities = λ c m. record { at = λ w h. h };
        masks = record { at = λ w h. h };
        snapshots = record { at = λ w h. h };
      }
      (λ pe seen real. record { at = λ w h. h }) (λ c. record { at = λ w h. h })
      (λ c. record { at = λ w h. h }) memory_store accounts at_two heal_Keeps
