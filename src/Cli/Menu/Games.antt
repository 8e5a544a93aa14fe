-- ===== src/Cli/Menu/Games.antt =====
-- The choice 4 of the menu in src/main.cpp: games to boost.
use Prim.Native.String.{◌++◌}
use disping.Common.{String, true, Option, some, List, [], ◌∷◌, if◌then◌else◌}
use disping.Common.State.{State, ◌>>=◌, ◌>>◌, pure}
use disping.Common.Text.{to_string}
use disping.Healer.Steam.{is_empty}
use disping.Console.{print_header}
use disping.Process.{boost_process_by_name}
use disping.Process.Games.{RunningProcessInfo, find_active_games}
use disping.Program.{Program, get_physical_cores_affinity_mask}
use disping.Cli.Boost.{print, show, boost_games_now, unless_thrown}
use disping.Cli.Menu.Prompts.{Session, wait_key, show_and_wait}

module _ {W D : Type 0} (p : Program W D) where
  open p use {parts, api, wlan, files, console, texts}

  unfoldable pub boost_custom : String → State W Unit
  boost_custom custom = if is_empty custom then pure tt else do
    r ← boost_process_by_name parts.procs (get_physical_cores_affinity_mask p) api custom true
    show p r

  unfoldable pub list_games : List RunningProcessInfo → State W Unit
  list_games [] = pure tt
  list_games (g ∷ found) = do
    print p ("  - PID " ++ (to_string g.pid ++ (": " ++ (g.name ++ "\n"))))
    list_games found

  unfoldable pub boost_found : Session → List RunningProcessInfo → State W (Option Session)
  boost_found s [] = do
    print p "No known game processes currently running.\n"
    print p "Enter custom executable name to boost (e.g. game.exe) or press Enter to skip: "
    custom ← console.getline
    boost_custom custom
    wait_key p
    pure (some s)
  boost_found s (g ∷ found) = do
    print p "Found active games:\n"
    list_games (g ∷ found)
    r ← boost_games_now p
    unless_thrown (show_and_wait p s) r

  unfoldable pub choose_games : Session → State W (Option Session)
  choose_games s = do
    print_header console "Active Games Boost (Priority & P-Core Pinning)"
    found ← find_active_games parts.procs api
    boost_found s found
