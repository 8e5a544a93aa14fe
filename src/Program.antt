-- ===== src/Program.antt =====
-- The parts of the operating system that the program as a whole is given, and what it shows as text.
use disping.Common.{ℕ, String, Bool, Option, List}
use disping.Common.State.{State, ◌>>=◌, pure}
use disping.Windows.System.{SystemApi, WlanApi}
use disping.Windows.Services.{ServiceApi, TimerApi, FileApi}
use disping.Windows.Healing.{HealApi, RegexLib}
use disping.Windows.Console.{ConsoleApi}
use disping.Windows.Udp.{UdpApi}
use disping.Windows.Hardware.{HardwareApi}
use disping.Hardware.{HardwareProfile}
use disping.Hardware.Cpu.{detect_hardware}
use disping.Ping.{PingStats}
use disping.Proxy.{UdpProxy}
use disping.Benchmark.Metrics.{BenchParts}

-- How a value is shown.
pub record Texts (D : Type 0) : Type 0 where
  -- `std::fixed << std::setprecision(n)` on a `double`, `std::hex` on a number, a character
  pub fixed : D → ℕ → String
  pub hex : ℕ → String
  pub key : ℕ → String
  -- a time in units of 100 ns as milliseconds with three decimals
  pub show_ms : ℕ → String
  -- `substr(0, n)`
  pub prefix : ℕ → String → String
  -- bytes as text, and the tests `<= 0.6`, `<= 1.0` and `<= 1.1` of a resolution
  pub bytes : List ℕ → String
  pub is_ultra : D → Bool
  pub is_fine : D → Bool
  pub is_raised : D → Bool
  -- __DATE__, a space and __TIME__
  pub stamp : String
  -- `static_cast<uint16_t>(std::stoi(text))`, `none` where stoi throws
  pub port : String → Option ℕ

pub record Program (W D : Type 0) : Type 0 where
  pub parts : BenchParts W D
  pub api : SystemApi W
  pub wlan : WlanApi W
  pub services : ServiceApi W
  pub timer : TimerApi W
  pub files : FileApi W
  pub heal : HealApi W
  pub regex : RegexLib
  pub console : ConsoleApi W
  pub texts : Texts D
  pub hw : HardwareApi W
  -- asm_has_rdtscp_support
  pub has_rdtscp : Bool
  -- BenchmarkMultipleTargets, whose monitors run at the same time, and the menu's built-in tests of the assembly routines
  pub benchmark_multiple_targets : List String → ℕ → State W (List (PingStats D))
  pub run_verification_tests : State W Unit
  -- the sockets of the relay, the rounds that its thread makes while the program waits for a key, and its average latency
  pub udp : UdpApi W
  pub relay_rounds : ℕ
  pub latency_text : UdpProxy → String
  -- the steps that the timer's thread makes while the program waits for Enter
  pub ticks : ℕ
  -- WSAStartup and WSACleanup
  pub wsa_startup : State W Unit
  pub wsa_cleanup : State W Unit

-- HardwareDetector::DetectHardware on the machine.
abbrev pub detected : {W D : Type 0} → Program W D → State W HardwareProfile
detected p = detect_hardware p.hw p.parts.procs

-- GetPhysicalCoresAffinityMask of src/process_optimizer.cpp.
unfoldable pub get_physical_cores_affinity_mask : {W D : Type 0} → Program W D → State W ℕ
get_physical_cores_affinity_mask p = do
  profile ← detected p
  pure profile.optimal_game_affinity_mask
