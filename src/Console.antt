-- ===== src/Console.antt =====
-- src/ui_console.cpp: what the program prints. A line that is put together by `<<` is printed in one piece.
pub mod Tables
use Prim.Native.String.{◌++◌, len}
use disping.Common.{
  ℕ, zero, suc, ◌-◌, String, Bool, true, false, not, List, [], ◌∷◌, OperationResult, ltb,
  if◌then◌else◌,
}
use disping.Common.State.{State, ◌>>◌, pure}
use disping.Common.Text.{to_string}
use disping.Windows.Console.{ConsoleApi}
use disping.Healer.Steam.{is_empty}
use disping.Adapter.Active.{NetworkAdapterInfo}
use disping.Dns.{DnsBenchmarkResult}
use disping.Ping.{Doubles, PingStats, generate_sparkline}

abbrev pub reset : String
reset = "\u{1b}[0m"

abbrev pub bold : String
bold = "\u{1b}[1m"

abbrev pub red : String
red = "\u{1b}[31m"

abbrev pub yellow : String
yellow = "\u{1b}[33m"

abbrev pub magenta : String
magenta = "\u{1b}[35m"

abbrev pub cyan : String
cyan = "\u{1b}[36m"

abbrev pub white : String
white = "\u{1b}[37m"

abbrev pub bright_green : String
bright_green = "\u{1b}[92m"

abbrev pub bright_cyan : String
bright_cyan = "\u{1b}[96m"

abbrev pub bright_yellow : String
bright_yellow = "\u{1b}[93m"

abbrev banner : String
banner =
    "\n  ██████╗ ██╗███████╗██████╗ ██╗███╗   ██╗ ██████╗ \n  ██╔══██╗██║██╔════╝██╔══██╗██║████╗  ██║██╔════╝ \n  ██║  ██║██║███████╗██████╔╝██║██╔██╗ ██║██║  ███╗\n  ██║  ██║██║╚════██║██╔═══╝ ██║██║╚██╗██║██║   ██║\n  ██████╔╝██║███████║██║     ██║██║ ╚████║╚██████╔╝\n  ╚═════╝ ╚═╝╚══════╝╚═╝     ╚═╝╚═╝  ╚═══╝ ╚═════╝ \n"

unfoldable pub result_text : OperationResult → String
result_text res =
    (if res.success
      then bright_green ++ ("[SUCCESS] " ++ (reset ++ (res.message ++ "\n")))
      else red ++ ("[FAILED]  " ++ (reset ++ (res.message ++ "\n"))))
    ++ (if is_empty res.details then "" else white ++ (res.details ++ (reset ++ "\n")))

-- A text in colour.
abbrev pub coloured : String → String → String
coloured colour text = colour ++ (text ++ reset)

module _ {W : Type 0} (console : ConsoleApi W) where
  open console use {print}

  unfoldable pub init_console : State W Unit
  init_console = do console.enable_terminal; console.set_output_utf8

  unfoldable pub clear_screen : State W Unit
  clear_screen = print "\u{1b}[2J\u{1b}[H"

  unfoldable pub print_banner : State W Unit
  print_banner = do
    print (bright_cyan ++ (bold ++ (banner ++ reset)))
    print (
        cyan
        ++ ("  Ultimate Network, Latency & FPS Optimization Engine for Competitive Gaming"
            ++ (reset ++ "\n")))
    print (
        yellow
        ++ ("  Assembly Accelerated | Sub-millisecond Timers | Zero-Jitter TCP Stack"
            ++ (reset ++ "\n")))
    print "  -----------------------------------------------------------------------\n"

  -- The timer's resolution comes as a text with three decimals, and with the answer of the test `timerMs <= 1.0`.
  unfoldable pub print_system_status : Bool → String → Bool → Bool → Bool → State W Unit
  print_system_status is_admin timer_ms is_fine net_tweaked vpn_shield_active = do
    print "  [System Status]\n"
    print (
        "  * Privileges:        "
        ++ ((if is_admin
              then coloured bright_green "[ADMINISTRATOR]"
              else coloured red "[LIMITED USER - Run as Admin!]")
            ++ "\n"))
    print (
        "  * OS Timer Rate:     "
        ++ (coloured (if is_fine then bright_green else yellow) (timer_ms ++ " ms") ++ "\n"))
    print (
        "  * Network Tweaks:    "
        ++ ((if net_tweaked
              then coloured bright_green "[ACTIVE - MAXIMUM PRIORITY]"
              else coloured yellow "[DEFAULT / NOT APPLIED]")
            ++ "\n"))
    print (
        "  * VPN & DPI Shield:  "
        ++ ((if vpn_shield_active
              then coloured bright_green "[ACTIVE - Zapret/Incy/Happ PROTECTED]"
              else coloured white "[IDLE - No VPN Running]")
            ++ "\n"))
    print "  -----------------------------------------------------------------------\n"

  unfoldable pub print_menu : State W Unit
  print_menu = do
    print ("\n" ++ (bold ++ (white ++ "  AVAILABLE ACTIONS:" ++ (reset ++ "\n\n"))))
    print (
        "   "
        ++ (bright_green
            ++ "[!] 1-CLICK EXTREME GAMING BOOST"
            ++ (reset ++ " (Network, Adapters, 0.5ms Timer, MMCSS, QoS)\n")))
    print (
        "   "
        ++ (bright_cyan
            ++ "[1]"
            ++ (reset ++ " Apply TCP/IP Network Tweaks (Disable Nagle, ACK delay, Throttling)\n")))
    print (
        "   "
        ++ (bright_cyan
            ++ "[2]"
            ++ (reset
                ++ " Optimize Network Adapter Hardware (Interrupt Moderation, Buffers, LSO)\n")))
    print (
        "   "
        ++ (bright_cyan
            ++ "[3]"
            ++ (reset ++ " Lock 0.500 ms High-Resolution Timer & Boost MMCSS Gaming Profile\n")))
    print (
        "   "
        ++ (bright_cyan
            ++ "[4]"
            ++ (reset
                ++ " Detect & Boost Active Games (High Priority & P-Core Affinity Pinning)\n")))
    print (
        "   "
        ++ (bright_cyan
            ++ "[5]"
            ++ (reset ++ " Discover Optimal MTU/MSS (Don't Fragment Binary Search)\n")))
    print (
        "   "
        ++ (bright_cyan
            ++ "[6]"
            ++ (reset ++ " Benchmark & Auto-Select Fastest Gaming DNS Resolver\n")))
    print (
        "   "
        ++ (bright_cyan
            ++ "[7]"
            ++ (reset ++ " Run Microsecond Ping & Jitter Telemetry (Live Graph)\n")))
    print (
        "   "
        ++ (bright_cyan
            ++ "[8]"
            ++ (reset ++ " Clean Standby List & Process Working Sets (Fix Stutters)\n")))
    print ("   " ++ (bright_cyan ++ "[9]" ++ (reset ++ " Start Zero-Copy UDP Fast-Relay Proxy\n")))
    print ("   " ++ (bright_yellow ++ "[B]" ++ (reset ++ " Create System State Backup\n")))
    print (
        "   "
        ++ (bright_yellow
            ++ "[R]"
            ++ (reset ++ " Restore Original Windows Defaults (Safe Rollback)\n")))
    print ("   " ++ (magenta ++ "[T]" ++ (reset ++ " Run Built-in Automated Verification Tests\n")))
    print (
        "   "
        ++ (bright_green
            ++ "[C]"
            ++ (reset ++ " Run Real-World Benchmark (Compare BEFORE vs AFTER)\n")))
    print (
        "   "
        ++ (bright_cyan
            ++ "[V]"
            ++ (reset ++ " View VPN & DPI Shield Status (Zapret, Incy, Happ, Wintun)\n")))
    print (
        "   "
        ++ (bright_cyan
            ++ "[W]"
            ++ (reset ++ " Wi-Fi Zero-Jitter Anti-Spike Engine (Disable Scanning & Roaming)\n")))
    print (
        "   "
        ++ (bright_green
            ++ "[F]"
            ++ (reset
                ++ " Auto-Heal & Unlock Steam / Games (Clear .crash, stale PIDs & zombies)\n")))
    print (
        "   "
        ++ (bright_cyan
            ++ "[H]"
            ++ (reset ++ " Universal Hardware Profiler (Intel Hybrid, AMD X3D, ISA & RAM Tier)\n")))
    print (
        "   "
        ++ (bright_green
            ++ "[S]"
            ++ (reset ++ " View Live System Status (Registry, Timer, MMCSS, Hardware)\n")))
    print ("   " ++ (red ++ "[Q]" ++ (reset ++ " Exit disping\n\n")))
    print (bold ++ "  Select an option [!/1-9/B/R/T/C/V/W/F/H/S/Q]: " ++ reset)

  unfoldable pub print_header : String → State W Unit
  print_header title =
      print ("\n" ++ (bold ++ (cyan ++ ("=== " ++ (title ++ (" ===" ++ (reset ++ "\n\n")))))))

  unfoldable pub print_operation_result : OperationResult → State W Unit
  print_operation_result res = print (result_text res)
