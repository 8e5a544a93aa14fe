-- ===== src/Cli/Menu.antt =====
-- The interactive loop of src/main.cpp: the key, and what the choice does.
pub mod Prompts
pub mod Settings
pub mod Games
pub mod Relay
use Prim.Native.String.{◌++◌}
use disping.Common.{
  ℕ, String, Bool, true, ◌||◌, Option, none, some, List, [], ◌∷◌, OperationResult, ◌==◌,
  if◌then◌else◌,
}
use disping.Common.State.{State, ◌>>=◌, ◌>>◌, pure}
use disping.Common.Text.{to_string}
use disping.Healer.Steam.{is_empty}
use disping.Console.{clear_screen, print_banner, print_system_status, print_menu, print_header}
use disping.Console.Tables.{print_ping_table, print_dns_table, print_adapters_table}
use disping.Network.{apply_all_network_tweaks, are_tweaks_applied}
use disping.Adapter.Active.{get_active_adapters}
use disping.Adapter.Wifi.{optimize_all_network_adapters}
use disping.Latency.{
  TimerState, new_optimizer, set_high_resolution_timer, optimize_mmcss_games_profile,
}
use disping.Latency.Daemon.{query_timer_resolution}
use disping.Mtu.{probe_packet_size, discover_optimal_mtu, auto_detect_and_apply_mtu}
use disping.Dns.{benchmark_dns_providers, auto_select_fastest_dns}
use disping.Memory.{clean_gaming_memory}
use disping.Process.{boost_process_by_name}
use disping.Process.Games.{RunningProcessInfo, find_active_games}
use disping.Proxy.{UdpProxy, new_proxy, start, joined, clear}
use disping.Backup.{create_backup, restore_factory_defaults}
use disping.Vpn.{is_vpn_or_dpi_bypass_active}
use disping.Benchmark.Metrics.{resolution_of}
use disping.Benchmark.Run.{run_comparison_benchmark}
use disping.Hardware.Report.{print_hardware_report}
use disping.Vpn.Report.{print_vpn_shield_status}
use disping.Program.{detected, Program, get_physical_cores_affinity_mask}
use disping.Cli.Boost.{
  print, show, heal_now, boost_games_now, unless_thrown, execute_extreme_boost, tune_wifi,
}
use disping.Cli.Status.{show_status}
use Prompts.{Session, wait_key, show_and_wait, quietly}
use Settings.{
  choose_network, choose_adapters, choose_timer, choose_mtu, choose_dns, choose_pings,
  choose_memory, choose_backup, choose_rollback,
}
use Games.{choose_games}
use Relay.{choose_relay}

pub data Choice : Type 0 where
  boost network adapters timer games mtu dns pings memory relay backup rollback tests compare vpn
        wifi heal hardware status quit other :
      Choice

abbrev either : ℕ → ℕ → ℕ → Bool
either small capital key = key == small || key == capital

-- The `switch` on the key.
unfoldable pub choice_of : ℕ → Choice
choice_of key =
    if key == b'!'
    then boost
    else if key == b'1'
    then network
    else if key == b'2'
    then adapters
    else if key == b'3'
    then timer
    else if key == b'4'
    then games
    else if key == b'5'
    then mtu
    else if key == b'6'
    then dns
    else if key == b'7'
    then pings
    else if key == b'8'
    then memory
    else if key == b'9'
    then relay
    else if either b'b' b'B' key
    then backup
    else if either b'r' b'R' key
    then rollback
    else if either b't' b'T' key
    then tests
    else if either b'c' b'C' key
    then compare
    else if either b'v' b'V' key
    then vpn
    else if either b'w' b'W' key
    then wifi
    else if either b'f' b'F' key
    then heal
    else if either b'h' b'H' key
    then hardware
    else if either b's' b'S' key
    then status
    else if either b'q' b'Q' key
    then quit
    else other

module _ {W D : Type 0} (p : Program W D) where
  open p use {parts, api, wlan, files, console, texts}

  unfoldable pub choose_tests : State W Unit
  choose_tests = do
    print_header console "Built-in Verification Tests"
    p.run_verification_tests
    wait_key p

  unfoldable pub choose_compare : State W Unit
  choose_compare = do run_comparison_benchmark p "192.168.31.1"; wait_key p

  unfoldable pub choose_vpn : State W Unit
  choose_vpn = do print_vpn_shield_status p.console p.api; wait_key p

  unfoldable pub choose_wifi : State W Unit
  choose_wifi = do tune_wifi p; wait_key p

  unfoldable pub choose_heal : Session → State W (Option Session)
  choose_heal s = do
    print_header console "Steam & Game Launchers Auto-Healing Engine"
    r ← heal_now p
    unless_thrown (show_and_wait p s) r

  unfoldable pub choose_hardware : State W Unit
  choose_hardware = do
    prof ← detected p
    print_hardware_report p.console p.texts.bytes p.texts.hex prof
    wait_key p

  unfoldable pub choose_status : State W Unit
  choose_status = do
    show_status p
    print p "Press any key to return to menu..."
    console.getch
    pure tt

  unfoldable pub boosted : Session → TimerState → State W (Option Session)
  boosted s latency = do
    print p "Press any key to return to menu..."
    console.getch
    pure (some record s { latency = latency })

  -- The cases of the switch; `none` stands for an exception or std::terminate.
  unfoldable pub act_on : Choice → Session → State W (Option Session)
  act_on boost s = do latency ← execute_extreme_boost p s.latency; unless_thrown (boosted s) latency
  act_on network s = quietly p s (choose_network p)
  act_on adapters s = quietly p s (choose_adapters p)
  act_on timer s = do s' ← choose_timer p s; pure (some s')
  act_on games s = choose_games p s
  act_on mtu s = quietly p s (choose_mtu p)
  act_on dns s = quietly p s (choose_dns p)
  act_on pings s = quietly p s (choose_pings p)
  act_on memory s = quietly p s (choose_memory p)
  act_on relay s = choose_relay p s
  act_on backup s = quietly p s (choose_backup p)
  act_on rollback s = quietly p s (choose_rollback p)
  act_on tests s = quietly p s choose_tests
  act_on compare s = quietly p s choose_compare
  act_on vpn s = quietly p s choose_vpn
  act_on wifi s = quietly p s choose_wifi
  act_on heal s = choose_heal s
  act_on hardware s = quietly p s choose_hardware
  act_on status s = quietly p s choose_status
  act_on quit s = pure (some s)
  act_on other s = pure (some s)

  -- The screen above the menu, and the key.
  unfoldable pub ask_choice : State W Choice
  ask_choice = do
    clear_screen console
    print_banner console
    is_admin ← parts.store.is_running_as_admin
    resolution ← query_timer_resolution parts.nt_query
    net_tweaked ← are_tweaks_applied parts.store
    vpn_shield ← is_vpn_or_dpi_bypass_active api
    let curr = resolution_of parts.bench resolution
    print_system_status console is_admin (texts.fixed curr 3) (texts.is_fine curr) net_tweaked
        vpn_shield
    print_menu console
    key ← console.getch
    print p (texts.key key ++ "\n\n")
    pure (choice_of key)
