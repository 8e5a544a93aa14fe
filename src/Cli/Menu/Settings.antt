-- ===== src/Cli/Menu/Settings.antt =====
-- The choices of the menu in src/main.cpp that change settings: network, adapters, timer, MTU, DNS, memory, backup and rollback.
use Prim.Native.String.{◌++◌}
use disping.Common.{[], ◌∷◌}
use disping.Common.State.{State, ◌>>=◌, ◌>>◌, pure}
use disping.Common.Text.{to_string}
use disping.Console.{print_header}
use disping.Console.Tables.{print_ping_table, print_dns_table, print_adapters_table}
use disping.Network.{apply_all_network_tweaks}
use disping.Adapter.Active.{get_active_adapters}
use disping.Adapter.Wifi.{optimize_all_network_adapters}
use disping.Latency.{set_high_resolution_timer, optimize_mmcss_games_profile}
use disping.Mtu.{probe_packet_size, discover_optimal_mtu, auto_detect_and_apply_mtu}
use disping.Dns.{benchmark_dns_providers, auto_select_fastest_dns}
use disping.Memory.{clean_gaming_memory}
use disping.Backup.{create_backup, restore_factory_defaults}
use disping.Program.{Program}
use disping.Cli.Boost.{print, show}
use disping.Cli.Menu.Prompts.{Session, wait_key, confirmed}

module _ {W D : Type 0} (p : Program W D) where
  open p use {parts, api, wlan, files, console, texts}

  unfoldable pub choose_network : State W Unit
  choose_network = do
    print_header console "TCP/IP Network Optimizations"
    r ← apply_all_network_tweaks api parts.store
    show p r
    wait_key p

  unfoldable pub choose_adapters : State W Unit
  choose_adapters = do
    print_header console "Network Adapter Tuning"
    found ← get_active_adapters api
    print_adapters_table console texts.prefix found
    r ← optimize_all_network_adapters parts.store wlan
    show p r
    wait_key p

  unfoldable pub choose_timer : Session → State W Session
  choose_timer s = do
    print_header console "High-Resolution 0.500 ms Timer & MMCSS Boost"
    (r1, latency) ← set_high_resolution_timer p.timer texts.show_ms 5000 s.latency
    r2 ← optimize_mmcss_games_profile parts.store
    show p r1
    show p r2
    wait_key p
    pure (record s { latency = latency })

  unfoldable pub choose_mtu : State W Unit
  choose_mtu = do
    print_header console "MTU / MSS Binary Search Probe"
    print p "Probing Path MTU to 1.1.1.1 with Don't Fragment packets...\n"
    res ← discover_optimal_mtu (probe_packet_size parts.icmp "1.1.1.1")
    print p (
        "Optimal MTU: "
        ++ (to_string res.optimal_mtu
            ++ (" (Optimal MSS: " ++ (to_string res.optimal_mss ++ ")\n"))))
    confirmed p "Apply to active physical adapters? (y/n): "
        (auto_detect_and_apply_mtu api parts.icmp "1.1.1.1")
    wait_key p

  unfoldable pub choose_dns : State W Unit
  choose_dns = do
    print_header console "DNS Benchmark & Auto-Selection"
    print p "Benchmarking top low-latency gaming DNS providers...\n"
    results ← benchmark_dns_providers parts.dns parts.lat parts.sort 3
    print_dns_table console parts.doubles texts.fixed results
    confirmed p "Apply fastest DNS resolver to your adapter? (y/n): "
        (auto_select_fastest_dns api parts.dns parts.lat parts.sort)
    wait_key p

  unfoldable pub choose_pings : State W Unit
  choose_pings = do
    print_header console "Microsecond Ping & Jitter Telemetry"
    print p "Running concurrent microsecond telemetry probes...\n"
    stats ←
        p.benchmark_multiple_targets ("1.1.1.1" ∷ "8.8.8.8" ∷ "155.133.226.1" ∷ "162.249.72.1" ∷ [])
          10
    print_ping_table console parts.doubles texts.fixed stats
    wait_key p

  unfoldable pub choose_memory : State W Unit
  choose_memory = do
    print_header console "Memory Cleaner & Standby Purge"
    r ← clean_gaming_memory parts.procs api
    show p r
    wait_key p

  unfoldable pub choose_backup : State W Unit
  choose_backup = do
    print_header console "Create System Backup"
    r ← create_backup files parts.store texts.stamp "disping_backup.json"
    show p r
    wait_key p

  unfoldable pub choose_rollback : State W Unit
  choose_rollback = do
    print_header console "Rollback All Settings to Windows Defaults"
    confirmed p "Are you sure you want to restore factory Windows defaults? (y/n): "
        (restore_factory_defaults parts.store api p.timer texts.show_ms)
    wait_key p
