-- ===== src/Cli/Boost.antt =====
-- ExecuteExtremeBoost of src/main.cpp, and the messages of the Wi-Fi tuning, which a command and a key share.
use Prim.Native.String.{◌++◌}
use disping.Common.{String, false, Option, none, some, [], OperationResult, if◌then◌else◌}
use disping.Common.State.{State, ◌>>=◌, ◌>>◌, pure}
use disping.Common.Text.{to_string}
use disping.Console.{bright_green, bold, reset, print_header, print_operation_result}
use disping.Hardware.{HardwareProfile, get_isa_tier_description}
use disping.Network.{apply_all_network_tweaks}
use disping.Adapter.Wifi.{
  optimize_all_network_adapters, optimize_wifi_adapters, set_wifi_background_scan,
}
use disping.Latency.{
  TimerState, set_high_resolution_timer, optimize_mmcss_games_profile, optimize_memory_subsystem,
  disable_location_services,
}
use disping.Qos.{setup_gaming_qos_policies}
use disping.Backup.{create_backup}
use disping.Memory.{clean_gaming_memory}
use disping.Process.Games.{auto_boost_all_active_games}
use disping.Healer.{heal_steam_and_games}
use disping.Program.{detected, Program, get_physical_cores_affinity_mask}

-- What follows a call that may end by an exception, `none`, which is not caught.
unfoldable pub unless_thrown :
    {W A B : Type 0} → (A → State W (Option B)) → Option A → State W (Option B)
unless_thrown rest none = pure none
unless_thrown rest (some a) = rest a

module _ {W D : Type 0} (p : Program W D) where
  open p use {parts, api, wlan, timer, services, files, console, texts}

  abbrev pub print : String → State W Unit
  print text = console.print text

  abbrev pub show : OperationResult → State W Unit
  show r = print_operation_result console r

  unfoldable pub print_profile : HardwareProfile → State W Unit
  print_profile prof = do
    print ("[0/7] Hardware Profile: " ++ (texts.bytes prof.cpu_brand ++ "\n"))
    print (
        "      Architecture Tier: "
        ++ (get_isa_tier_description prof
            ++ (" | RAM: " ++ (to_string prof.total_ram_gb ++ " GB\n"))))
    if prof.is_hybrid
        then print (
            "      [Intel Hybrid] "
            ++ (to_string prof.p_core_count
                ++ (" P-Cores + "
                    ++ (to_string prof.e_core_count
                        ++ " E-Cores detected. Games will be pinned exclusively to P-Cores.\n"))))
        else if prof.is_amd_x3d
        then print
            "      [AMD 3D V-Cache] X3D processor detected. Games will be pinned to V-Cache CCD.\n"
        else pure tt

  -- The steps 0 to 7, which do not throw.
  unfoldable pub boost_system : TimerState → State W TimerState
  boost_system s = do
    print_header console "APPLYING 1-CLICK EXTREME GAMING BOOST"
    prof ← detected p
    print_profile prof
    create_backup files parts.store texts.stamp "disping_backup.json"
    print "\n[1/7] Applying TCP/IP Stack & Zero-Jitter Optimizations...\n"
    r1 ← apply_all_network_tweaks api parts.store
    show r1
    print "\n[2/7] Tuning Network Adapter (Interrupt Moderation, Buffers, Wi-Fi Zero-Spike)...\n"
    r2 ← optimize_all_network_adapters parts.store wlan
    r_loc ← disable_location_services services parts.store
    show r2
    show r_loc
    print "\n[3/7] Locking OS High-Resolution Timer (0.500 ms) & MMCSS Games Profile...\n"
    (r3, s') ← set_high_resolution_timer timer texts.show_ms 5000 s
    r3b ← optimize_mmcss_games_profile parts.store
    show r3
    show r3b
    print "\n[4/7] Tuning Windows Memory Subsystem (Disable Paging Executive)...\n"
    r_mem ← optimize_memory_subsystem parts.store prof.is_high_ram
    show r_mem
    print "\n[5/7] Setting up DSCP 46 (Expedited Forwarding) Gaming QoS Policies...\n"
    r4 ← setup_gaming_qos_policies parts.store []
    show r4
    print "\n[6/7] Purging Standby Memory Cache & Working Sets...\n"
    r5 ← clean_gaming_memory parts.procs api
    show r5
    print "\n[7/8] Scanning & Boosting Running Game Processes (Affinity Pinning)...\n"
    pure s'

  abbrev pub heal_now : State W (Option OperationResult)
  heal_now = heal_steam_and_games parts.store parts.procs p.heal p.regex api false

  abbrev pub boost_games_now : State W (Option OperationResult)
  boost_games_now =
      auto_boost_all_active_games parts.procs (get_physical_cores_affinity_mask p) parts.store
        p.heal p.regex api

  unfoldable pub boost_healed_last : TimerState → OperationResult → State W (Option TimerState)
  boost_healed_last s r7 = do
    show r7
    print (
        "\n"
        ++ (bright_green
            ++ (bold
                ++ ("[OK] EXTREME GAMING LATENCY OPTIMIZATION COMPLETE!" ++ (reset ++ "\n\n")))))
    pure (some s)

  unfoldable pub boost_games_last : TimerState → OperationResult → State W (Option TimerState)
  boost_games_last s r6 = do
    show r6
    print "\n[8/8] Auto-Healing Steam & Game Launchers (Locks, Crash Files & Stale PIDs)...\n"
    r7 ← heal_now
    unless_thrown (boost_healed_last s) r7

  -- `none` stands for an exception.
  unfoldable pub execute_extreme_boost : TimerState → State W (Option TimerState)
  execute_extreme_boost s = do
    s' ← boost_system s
    r6 ← boost_games_now
    unless_thrown (boost_games_last s') r6

  unfoldable pub tune_wifi : State W Unit
  tune_wifi = do
    print_header console "Wi-Fi Zero-Jitter Anti-Spike Engine"
    r1 ← optimize_wifi_adapters parts.store
    r2 ← set_wifi_background_scan parts.store wlan false
    r3 ← disable_location_services services parts.store
    show r1
    show r2
    show r3
