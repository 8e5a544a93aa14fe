-- ===== src/Process/Games.antt =====
-- FindActiveGames and AutoBoostAllActiveGames of src/process_optimizer.cpp.
pub mod Shield
use Prim.Native.String.{◌++◌}
use disping.Common.{
  ℕ, ◌+◌, String, Bool, true, false, ◌||◌, Option, none, some, List, [], ◌∷◌, OperationResult,
  result, ltb, if◌then◌else◌,
}
use disping.Common.State.{State, ◌>>=◌, ◌>>◌, pure, count_each}
use disping.Common.Text.{to_string}
use disping.Windows.Registry.{same_text}
use disping.Windows.System.{Process, SystemApi}
use disping.Windows.Processes.{ProcessApi}
use disping.Windows.Healing.{HealApi, RegexLib}
use disping.Store.{RegistryStore}
use disping.Healer.{heal_steam_and_games}
use disping.Process.{boost_process}

-- The fields that are not filled in where the process cannot be opened are `none`.
pub record RunningProcessInfo : Type 0 where
  pub pid : ℕ
  pub name : String
  pub priority_class : Option ℕ
  pub affinity_mask : Option ℕ

abbrev pub get_known_game_executables : List String
get_known_game_executables =
    "cs2.exe" ∷ "csgo.exe" ∷ "valorant.exe" ∷ "VALORANT-Win64-Shipping.exe" ∷ "dota2.exe"
    ∷ "r5apex.exe" ∷ "FortniteClient-Win64-Shipping.exe" ∷ "Overwatch.exe" ∷ "RustClient.exe"
    ∷ "EscapeFromTarkov.exe" ∷ "RainbowSix.exe" ∷ "Warzone.exe" ∷ "ModernWarfare.exe"
    ∷ "RocketLeague.exe" ∷ "League of Legends.exe" ∷ "GTA5.exe" ∷ "cyberpunk2077.exe" ∷ []

-- The loop over the known games: names are compared in lower case.
unfoldable pub is_known_game : List String → String → Bool
is_known_game [] exe_name = false
is_known_game (kg ∷ known_games) exe_name =
    same_text exe_name kg || is_known_game known_games exe_name

-- PROCESS_QUERY_INFORMATION
abbrev pub query_information : ℕ
query_information = 0x400

module _ {W : Type 0} (procs : ProcessApi W) where
  unfoldable pub game_info : Process → Option ℕ → State W RunningProcessInfo
  game_info pe none =
      pure record { pid = pe.pid; name = pe.exe; priority_class = none; affinity_mask = none }
  game_info pe (some proc) = do
    priority ← procs.get_priority_class proc
    proc_mask ← procs.get_process_affinity_mask proc
    procs.close_handle proc
    pure record {
      pid = pe.pid;
      name = pe.exe;
      priority_class = some priority;
      affinity_mask = some proc_mask;
    }

  unfoldable pub read_game : Process → State W RunningProcessInfo
  read_game pe = do proc ← procs.open_process query_information pe.pid; game_info pe proc

  unfoldable pub listed_games : List Process → State W (List RunningProcessInfo)
  listed_games [] = pure []
  listed_games (pe ∷ list) =
      let rest = listed_games list in
      if is_known_game get_known_game_executables pe.exe
      then (do info ← read_game pe; games ← rest; pure (info ∷ games))
      else rest

  unfoldable pub games_of : Option (List Process) → State W (List RunningProcessInfo)
  games_of none = pure []
  games_of (some list) = listed_games list

  unfoldable pub find_active_games : SystemApi W → State W (List RunningProcessInfo)
  find_active_games api = do list ← api.snapshot; games_of list

module _ {W : Type 0} (procs : ProcessApi W) (mask : State W ℕ) where
  unfoldable pub boost_game : RunningProcessInfo → State W Bool
  boost_game g = do r ← boost_process procs mask g.pid true; pure r.success

  unfoldable pub boost_games : List RunningProcessInfo → State W OperationResult
  boost_games [] = pure (
      result true
        "No active known game processes detected at this moment (Steam and platform locks verified healthy).")
  boost_games (g ∷ games) = do
    count ← count_each boost_game (g ∷ games)
    pure (
        result (ltb 0 count) (
          "Auto-boosted "
          ++ (to_string count ++ " active game process(es) (High Priority & Core Isolation).")))

  -- What follows the healing, whose exception is not caught.
  unfoldable pub boost_healed :
      SystemApi W → Option OperationResult → State W (Option OperationResult)
  boost_healed api none = pure none
  boost_healed api (some healed) = do
    games ← find_active_games procs api
    r ← boost_games games
    pure (some r)

  unfoldable pub auto_boost_all_active_games :
      RegistryStore W → HealApi W → RegexLib → SystemApi W → State W (Option OperationResult)
  auto_boost_all_active_games store heal regex api = do
    healed ← heal_steam_and_games store procs heal regex api false
    boost_healed api healed
