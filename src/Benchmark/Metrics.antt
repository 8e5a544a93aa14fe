-- ===== src/Benchmark/Metrics.antt =====
-- MeasureMetrics of src/benchmark_runner.cpp and what it calls. BenchmarkAssemblyRoutines, which times the assembly
-- routines, is a parameter, and so are the operations on `double`.
pub mod Claims
use Prim.Native.String.{◌++◌}
use disping.Common.{
  ℕ, zero, suc, ◌+◌, String, Bool, true, false, ◌||◌, Option, none, some, List, [], ◌∷◌, ◌==◌,
  if◌then◌else◌,
}
use disping.Common.State.{State, ◌>>=◌, ◌>>◌, pure}
use disping.Windows.Registry.{hklm}
use disping.Windows.Processes.{ProcessApi}
use disping.Windows.Dns.{DnsApi, Latencies}
use disping.Store.{RegistryStore}
use disping.Network.{interfaces_key, profile_key}
use disping.Latency.{task_games_key}
use disping.Latency.Daemon.{query_timer_resolution}
use disping.Memory.{get_memory_stats}
use disping.Dns.{DnsBenchmarkResult, benchmark_dns_providers}
use disping.Ping.{Doubles, PingStats, MonitorApi, run_continuous_monitor}
use disping.Ping.Single.{EchoApi, pinging}
use disping.Windows.Icmp.{IcmpApi}

-- The fields that BenchmarkAssemblyRoutines writes.
pub record AssemblyMetrics (D : Type 0) : Type 0 where
  pub scalar_checksum_throughput_mbs : D
  pub asm_checksum_throughput_mbs : D
  pub asm_speedup_factor : D
  pub crc32_throughput_mbs : D
  pub memzero_throughput_gbs : D
  pub simd_stats_speedup : D
  pub qpc_cycles : ℕ
  pub rdtsc_cycles : ℕ

-- The fields that are read from the registry.
pub record RegistryMetrics : Type 0 where
  pub nagle_disabled : Bool
  pub ack_frequency_optimized : Bool
  pub network_throttling_disabled : Bool
  pub system_responsiveness_zero : Bool
  pub mmcss_boosted : Bool

pub record BenchmarkMetrics (D : Type 0) : Type 0 where
  pub timer_resolution_ms : D
  pub sleep_accuracy_1_ms_avg : D
  pub sleep_accuracy_1_ms_max : D
  pub total_ram_mb : ℕ
  pub available_ram_mb : ℕ
  pub memory_load_percent : ℕ
  pub dns_resolution_ms : D
  pub ping : PingStats D
  pub assembly : AssemblyMetrics D
  pub registry : RegistryMetrics

-- Arithmetic on `double`, beside that of the ping monitor.
pub record BenchDoubles (D : Type 0) : Type 0 where
  pub default_resolution : D
  pub unreachable_ms : D
  -- `units / 10000.0`
  pub of_units : ℕ → D
  -- `((end - start) * 1000.0) / freq`
  pub elapsed_ms : ℕ → ℕ → ℕ → D
  pub plus : D → D → D
  -- `sum / durations.size()`
  pub over : D → ℕ → D
  -- `a / b`
  pub ratio : D → D → D
  -- 0.001, 0.5 and 900.0
  pub thousandth : D
  pub half : D
  pub dns_limit : D

-- QueryPerformanceFrequency, QueryPerformanceCounter and Sleep.
pub record ClockApi (W : Type 0) : Type 0 where
  pub query_performance_frequency : State W ℕ
  pub query_performance_counter : State W ℕ
  pub sleep : ℕ → State W Unit

module _ {W D : Type 0} (d : Doubles D) (b : BenchDoubles D) (clock : ClockApi W) where
  -- The rounds that are left, with the sum of the durations and the longest one.
  unfoldable pub sleep_rounds : ℕ → ℕ → D → D → State W (D × D)
  sleep_rounds freq zero sum max_sleep = pure (sum, max_sleep)
  sleep_rounds freq (suc rounds) sum max_sleep = do
    start ← clock.query_performance_counter
    clock.sleep 1
    end ← clock.query_performance_counter
    let elapsed = b.elapsed_ms start end freq
    sleep_rounds freq rounds (b.plus sum elapsed)
        (if d.less max_sleep elapsed then elapsed else max_sleep)

  -- The average and the longest sleep.
  unfoldable pub benchmark_sleep_precision : ℕ → State W (D × D)
  benchmark_sleep_precision iterations = do
    freq ← clock.query_performance_frequency
    (sum, max_sleep) ← sleep_rounds freq iterations d.zero_ms d.zero_ms
    pure (b.over sum iterations, max_sleep)

unfoldable pub first_reachable : {D : Type 0} → D → List (DnsBenchmarkResult D) → D
first_reachable unreachable [] = unreachable
first_reachable unreachable (r ∷ results) =
    if r.reachable then r.avg_latency_ms else first_reachable unreachable results

unfoldable pub benchmark_dns_resolution :
    {W D : Type 0}
    → BenchDoubles D
    → DnsApi W D
    → Latencies D
    → (List (DnsBenchmarkResult D) → List (DnsBenchmarkResult D))
    → State W D
benchmark_dns_resolution b dns lat sort = do
  results ← benchmark_dns_providers dns lat sort 2
  pure (first_reachable b.unreachable_ms results)

-- Does GetDword find the value?
abbrev pub equals : ℕ → Option ℕ → Bool
equals wanted none = false
equals wanted (some val) = val == wanted

module _ {W : Type 0} (store : RegistryStore W) where
  -- The loop over the interfaces: a flag that is set stays set.
  unfoldable pub check_interfaces : List String → Bool × Bool → State W (Bool × Bool)
  check_interfaces [] flags = pure flags
  check_interfaces (g ∷ guids) (nagle, ack) = do
    let if_key = interfaces_key ++ "\\" ++ g
    nodelay ← store.get_dword hklm if_key "TCPNoDelay"
    ackfreq ← store.get_dword hklm if_key "TcpAckFrequency"
    check_interfaces guids (nagle || equals 1 nodelay, ack || equals 1 ackfreq)

  unfoldable pub check_registry_tweaks : State W RegistryMetrics
  check_registry_tweaks = do
    throttling ← store.get_dword hklm profile_key "NetworkThrottlingIndex"
    responsiveness ← store.get_dword hklm profile_key "SystemResponsiveness"
    guids ← store.enumerate_sub_keys hklm interfaces_key
    (nagle, ack) ← check_interfaces guids (false, false)
    priority ← store.get_dword hklm (task_games_key store) "GPU Priority"
    pure record {
      nagle_disabled = nagle;
      ack_frequency_optimized = ack;
      network_throttling_disabled = equals 0xffff_ffff throttling;
      system_responsiveness_zero = equals 0 responsiveness;
      mmcss_boosted = equals 8 priority;
    }

-- What MeasureMetrics is given by the rest of the program.
pub record BenchParts (W D : Type 0) : Type 0 where
  pub doubles : Doubles D
  pub bench : BenchDoubles D
  pub clock : ClockApi W
  pub nt_query : Option (State W (ℕ × ℕ × ℕ × ℕ))
  pub procs : ProcessApi W
  pub dns : DnsApi W D
  pub lat : Latencies D
  pub sort : List (DnsBenchmarkResult D) → List (DnsBenchmarkResult D)
  pub icmp : IcmpApi W
  pub echo : EchoApi W D
  pub monitor : MonitorApi W D
  pub store : RegistryStore W
  pub benchmark_assembly_routines : State W (AssemblyMetrics D)

-- The current resolution where the query succeeds, the default otherwise.
abbrev pub resolution_of : {D : Type 0} → BenchDoubles D → Option (ℕ × ℕ × ℕ) → D
resolution_of b none = b.default_resolution
resolution_of b (some (min_units, max_units, curr_units)) = b.of_units curr_units

module _ {W D : Type 0} (parts : BenchParts W D) where
  open parts use {
    doubles, bench, clock, nt_query, procs, dns, lat, sort, icmp, echo, monitor, store,
    benchmark_assembly_routines,
  }

  unfoldable pub measure_metrics : String → State W (BenchmarkMetrics D)
  measure_metrics ping_target = do
    resolution ← query_timer_resolution nt_query
    (sleep_avg, sleep_max) ← benchmark_sleep_precision doubles bench clock 15
    (total, available, load) ← get_memory_stats procs
    dns_ms ← benchmark_dns_resolution bench dns lat sort
    stats ← run_continuous_monitor doubles (pinging icmp echo monitor) ping_target 10 50
    assembly ← benchmark_assembly_routines
    registry ← check_registry_tweaks store
    pure record {
      timer_resolution_ms = resolution_of bench resolution;
      sleep_accuracy_1_ms_avg = sleep_avg;
      sleep_accuracy_1_ms_max = sleep_max;
      total_ram_mb = total;
      available_ram_mb = available;
      memory_load_percent = load;
      dns_resolution_ms = dns_ms;
      ping = stats;
      assembly = assembly;
      registry = registry;
    }
