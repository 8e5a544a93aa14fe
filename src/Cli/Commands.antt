-- ===== src/Cli/Commands.antt =====
-- The command line arguments of src/main.cpp.
pub mod ExitCodes
use Prim.Native.String.{◌++◌}
use disping.Common.{
  ℕ, zero, suc, String, Bool, true, false, ◌||◌, Option, none, some, List, [], ◌∷◌, OperationResult,
  if◌then◌else◌,
}
use disping.Common.State.{State, ◌>>=◌, ◌>>◌, pure}
use disping.Common.Text.{codes, same}
use disping.Console.{print_header}
use disping.Console.Tables.{print_ping_table, print_dns_table}
use disping.Network.{apply_all_network_tweaks}
use disping.Adapter.Wifi.{optimize_all_network_adapters}
use disping.Latency.{TimerState, new_optimizer}
use disping.Latency.Daemon.{
  TimerDaemon, no_daemon, worker_step, start_timer_daemon, stop_timer_daemon,
}
use disping.Ping.{PingStats, run_continuous_monitor}
use disping.Ping.Single.{pinging}
use disping.Mtu.{auto_detect_and_apply_mtu}
use disping.Dns.{benchmark_dns_providers, auto_select_fastest_dns}
use disping.Memory.{clean_gaming_memory}
use disping.Backup.{restore_factory_defaults}
use disping.Benchmark.Run.{run_comparison_benchmark}
use disping.Hardware.Report.{print_hardware_report}
use disping.Vpn.Report.{print_vpn_shield_status}
use disping.Program.{detected, Program}
use disping.Cli.Boost.{
  print, show, heal_now, boost_games_now, unless_thrown, execute_extreme_boost, tune_wifi,
}
use disping.Cli.Status.{show_status}

pub data Command : Type 0 where
  all network adapter wifi heal timer ping mtu dns games clean_mem restore compare vpn_check status
        hardware version :
      Command

-- `arg == "--x" || arg == "-x"`.
abbrev pub is_arg : String → List String → Bool
is_arg arg [] = false
is_arg arg (name ∷ names) = same (codes arg) (codes name) || is_arg arg names

-- The chain of tests; `none` for an argument that none of them knows.
unfoldable pub command_of : String → Option Command
command_of arg =
    if is_arg arg ("--all" ∷ "-a" ∷ [])
    then some all
    else if is_arg arg ("--network" ∷ "-n" ∷ [])
    then some network
    else if is_arg arg ("--adapter" ∷ [])
    then some adapter
    else if is_arg arg ("--wifi" ∷ "-w" ∷ [])
    then some wifi
    else if is_arg arg ("--heal" ∷ "--fix-steam" ∷ "-f" ∷ [])
    then some heal
    else if is_arg arg ("--timer" ∷ [])
    then some timer
    else if is_arg arg ("--ping" ∷ [])
    then some ping
    else if is_arg arg ("--mtu" ∷ [])
    then some mtu
    else if is_arg arg ("--dns" ∷ [])
    then some dns
    else if is_arg arg ("--games" ∷ [])
    then some games
    else if is_arg arg ("--clean-mem" ∷ [])
    then some clean_mem
    else if is_arg arg ("--restore" ∷ "-r" ∷ [])
    then some restore
    else if is_arg arg ("--compare" ∷ "--benchmark" ∷ "-c" ∷ [])
    then some compare
    else if is_arg arg ("--vpn-check" ∷ "--check-vpn" ∷ "--vpn" ∷ [])
    then some vpn_check
    else if is_arg arg ("--status" ∷ "-s" ∷ [])
    then some status
    else if is_arg arg ("--hardware" ∷ "-hw" ∷ [])
    then some hardware
    else if is_arg arg ("--version" ∷ "-v" ∷ [])
    then some version
    else none

-- `(argc > 2) ? argv[2] : fallback`.
abbrev pub host_or : String → List String → String
host_or fallback [] = fallback
host_or fallback (host ∷ rest) = host

-- What a command leaves: the exit code and the state of the timer that the destructor then finds.
abbrev pub Exit : Type 0
Exit = ℕ × TimerState

abbrev pub code_of : OperationResult → ℕ
code_of r = if r.success then 0 else 1

module _ {W D : Type 0} (p : Program W D) where
  open p use {parts, api, wlan, files, console, texts}

  unfoldable pub print_ping : PingStats D → D → State W Unit
  print_ping s current =
      if parts.doubles.non_negative current
      then print p (
          "Ping: "
          ++ (texts.fixed current 2
              ++ (" ms | Jitter: "
                  ++ (texts.fixed s.jitter_ms 2
                      ++ (" ms | Loss: " ++ (texts.fixed s.loss_rate 2 ++ "%\n"))))))
      else print p "Request timed out (packet dropped).\n"

  unfoldable pub run_ping : String → State W Unit
  run_ping host = do
    print_header console ("Ping & Jitter Telemetry: " ++ host)
    stats ←
        run_continuous_monitor parts.doubles
          (record (pinging parts.icmp parts.echo parts.monitor) { on_ping = print_ping }) host 15
          100
    print_ping_table console parts.doubles texts.fixed (stats ∷ [])

  -- The steps of the timer's thread while the program waits, as many as the number says.
  unfoldable pub worker_steps : ℕ → TimerDaemon → State W TimerDaemon
  worker_steps zero d = pure d
  worker_steps (suc n) d = do
    (phase, s) ← worker_step p.timer texts.show_ms parts.clock.sleep d.running d.phase d.state
    worker_steps n (record d { phase = phase; state = s })

  unfoldable pub exit_timer : Option TimerDaemon → State W (Option Exit)
  exit_timer none = pure none
  exit_timer (some d) = pure (some (0, d.state))

  unfoldable pub run_timer : Option TimerDaemon → State W (Option Exit)
  run_timer none = pure none
  run_timer (some started) = do
    print p "Timer daemon running at 0.500 ms tick rate. Press Ctrl+C or Enter to exit.\n"
    d ← worker_steps p.ticks started
    console.get
    stopped ← stop_timer_daemon p.timer texts.show_ms parts.clock.sleep d
    exit_timer stopped

  abbrev exit_0 : State W (Option Exit)
  exit_0 = pure (some (0, new_optimizer))

  unfoldable pub show_and_exit : OperationResult → State W (Option Exit)
  show_and_exit r = do show p r; exit_0

  -- `none` stands for an exception.
  unfoldable pub run_command : Command → List String → State W (Option Exit)
  run_command all rest = do
    s ← execute_extreme_boost p new_optimizer
    unless_thrown (λ s'. pure (some (0, s'))) s
  run_command network rest = do
    print_header console "TCP/IP Network Tweaks"
    r ← apply_all_network_tweaks api parts.store
    show p r
    pure (some (code_of r, new_optimizer))
  run_command adapter rest = do
    print_header console "Network Adapter Tuning"
    r ← optimize_all_network_adapters parts.store wlan
    show p r
    pure (some (code_of r, new_optimizer))
  run_command wifi rest = do tune_wifi p; exit_0
  run_command heal rest = do
    print_header console "Steam & Game Launchers Auto-Healing Engine"
    r ← heal_now p
    unless_thrown show_and_exit r
  run_command timer rest = do
    print_header console "0.5ms Timer Resolution Daemon"
    run_timer (start_timer_daemon p.timer texts.show_ms parts.clock.sleep 5000 no_daemon)
  run_command ping rest = do run_ping (host_or "1.1.1.1" rest); exit_0
  run_command mtu rest = do
    print_header console "MTU / MSS Discovery"
    r ← auto_detect_and_apply_mtu api parts.icmp (host_or "1.1.1.1" rest)
    show_and_exit r
  run_command dns rest = do
    print_header console "DNS Benchmark & Auto-Select"
    results ← benchmark_dns_providers parts.dns parts.lat parts.sort 3
    print_dns_table console parts.doubles texts.fixed results
    r ← auto_select_fastest_dns api parts.dns parts.lat parts.sort
    show_and_exit r
  run_command games rest = do
    print_header console "Game Process Priority & Affinity"
    r ← boost_games_now p
    unless_thrown show_and_exit r
  run_command clean_mem rest = do
    print_header console "Memory Standby Purge"
    r ← clean_gaming_memory parts.procs api
    show_and_exit r
  run_command restore rest = do
    print_header console "Restoring Windows Defaults"
    r ← restore_factory_defaults parts.store api p.timer texts.show_ms
    show_and_exit r
  run_command compare rest = do run_comparison_benchmark p (host_or "192.168.31.1" rest); exit_0
  run_command vpn_check rest = do print_vpn_shield_status p.console p.api; exit_0
  run_command status rest = do show_status p; exit_0
  run_command hardware rest = do
    prof ← detected p
    print_hardware_report p.console p.texts.bytes p.texts.hex prof
    exit_0
  run_command version rest = do
    print p "disping v1.0.0 (x86_64 NASM ASM + C++20)\n"
    print p (
        "Supported CPU Features: RDTSCP="
        ++ ((if p.has_rdtscp then "YES" else "NO")
            ++ ", Serialized TSC=YES, Fast RFC1071 Checksum=YES\n"))
    exit_0
